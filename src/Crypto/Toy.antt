-- ===== src/Crypto/Toy.antt =====
-- Functions that meet the documented behaviour, for tests: a hash is the password itself, and the
-- one token stands for the one set of claims that is ever signed in the tests.
use Prim.Native.String.{len}
use osspilot_ops_api.Common.{
  ℕ, ◌<◌, eqb, leb, ltb, String, ◌≡◌, ap, sym, ◌∙◌, inl, inr, Bool, true, false, ◌&&◌, Option, none,
  some, List, [], ◌∷◌, arith, ◌==◌, eq_iff, if◌then◌else◌, Bool-cases,
}
use osspilot_ops_api.Crypto.{Crypto, Claims, IsDocumented}

abbrev pub sample_claims : Claims
sample_claims = record {
  user_id = 1;
  portal = "ops";
  roles = "platform_admin" ∷ [];
  subject = "1";
  issued_at = 100;
  expires_at = 3700;
}

abbrev one_role : List String → Bool
one_role [] = false
one_role (x ∷ []) = x == "platform_admin"
one_role (x ∷ y ∷ xs) = false

abbrev is_sample : Claims → Bool
is_sample c =
    eqb c.user_id 1
    && c.portal == "ops"
    && one_role c.roles
    && c.subject == "1"
    && eqb c.issued_at 100
    && eqb c.expires_at 3700

abbrev pub toy : Crypto
toy = record {
  generate = λ salt p. if leb (len p) 72 then some p else none;
  compare = λ h p. h == p;
  sign = λ secret claims. if is_sample claims then some "t" else none;
  verify = λ secret now token. if token == "t" && ltb now 3700 then some sample_claims else none;
}

one_role_lem : (roles : List String) → one_role roles ≡ true → roles ≡ "platform_admin" ∷ []
one_role_lem [] h = cc
one_role_lem (x ∷ []) h = ground (arith, eq_iff x "platform_admin")
one_role_lem (x ∷ y ∷ xs) h = cc

is_sample_lem : (c : Claims) → is_sample c ≡ true → c ≡ sample_claims
is_sample_lem c h =
    ground (arith, one_role_lem c.roles, eq_iff c.portal "ops", eq_iff c.subject "1")

toy_generated : (salt : ℕ) (p h : String) → toy.generate salt p ≡ some h → toy.compare h p ≡ true
toy_generated salt p h e = ground (arith, eq_iff h p)

toy_too_long : (salt : ℕ) (p : String) → 72 < len p → toy.generate salt p ≡ none
toy_too_long salt p h = ground arith

toy_verify :
    (secret token : String) (now : ℕ)
    → ◌≡◌ {A = String} "t" token
    → now < 3700
    → toy.verify secret now token ≡ some sample_claims
toy_verify secret token now t soon = ground (arith, eq_iff token "t")

toy_signed :
    (secret token : String) (claims : Claims) (now : ℕ)
    → toy.sign secret claims ≡ some token
    → now < claims.expires_at
    → toy.verify secret now token ≡ some claims
toy_signed secret token claims now e fresh = elim (Bool-cases (is_sample claims)) [
  | inr other ↦ ground arith
  | inl good ↦
      let same = is_sample_lem claims good in
      let soon : now < 3700 = omega (arith, ap (λ (c : Claims). c.expires_at) same) in
      let t : ◌≡◌ {A = Option String} (some "t") (some token) = ground arith in
      toy_verify secret token now (ground arith) soon ∙ ap some (sym same)
]

pub toy-IsDocumented : IsDocumented toy
toy-IsDocumented = record {
  generated = toy_generated;
  too_long = toy_too_long;
  signed = toy_signed;
}
