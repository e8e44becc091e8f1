-- ===== src/Crypto.antt =====
-- golang.org/x/crypto/bcrypt and github.com/golang-jwt/jwt/v5, which the program only calls: a
-- record of their functions, and what their documentation says of them.
pub mod Toy
use Prim.Native.String.{len}
use osspilot_ops_api.Common.{ℕ, String, Bool, true, Option, none, some, List, ◌≡◌, ◌<◌}

-- internal/auth/jwt.go: the claims of a token; times in seconds, as `jwt.NumericDate` rounds them.
pub record Claims : Type 0 where
  pub user_id : ℕ
  pub portal : String
  pub roles : List String
  pub subject : String
  pub issued_at : ℕ
  pub expires_at : ℕ

pub record Crypto : Type 0 where
  -- `bcrypt.GenerateFromPassword`, with its random salt as an argument; `none` is an error.
  pub generate : ℕ → String → Option String
  -- `bcrypt.CompareHashAndPassword` on a hash and a password.
  pub compare : String → String → Bool
  -- `jwt.NewWithClaims(HS256, claims).SignedString(secret)`
  pub sign : String → Claims → Option String
  -- `jwt.ParseWithClaims` with the HS256 secret, at a time: signature, algorithm and expiry hold.
  pub verify : String → ℕ → String → Option Claims

pub record IsDocumented (c : Crypto) : Type 0 where
  pub generated : (salt : ℕ) (p h : String) → c.generate salt p ≡ some h → c.compare h p ≡ true
  pub too_long : (salt : ℕ) (p : String) → 72 < len p → c.generate salt p ≡ none
  pub signed :
      (secret token : String) (claims : Claims) (now : ℕ)
      → c.sign secret claims ≡ some token
      → now < claims.expires_at
      → c.verify secret now token ≡ some claims
