-- ===== src/Auth/Session/Change.antt =====
-- `changePassword`: what it writes, and that the new password signs in afterwards.
use Prim.Native.String.{len}
use osspilot_ops_api.Common.{
  ℕ, ◌<◌, ◌≤◌, String, ◌≡◌, ◌≢◌, ◌⊎◌, inl, inr, Bool, true, false, not, ◌&&◌, ◌||◌, some, [], arith,
  ◌==◌, eq_iff, Bool-cases, Option-cases,
}
use osspilot_ops_api.Action.{ok, err}
use osspilot_ops_api.Http.{error, json, reply}
use osspilot_ops_api.Schema.{Store}
use osspilot_ops_api.Schema.Ops.{OpsUser}
use osspilot_ops_api.Crypto.{Crypto, IsDocumented}
use osspilot_ops_api.Auth.{AuthHandler, Request}
use osspilot_ops_api.Auth.Accounts.{User, update_where}
use osspilot_ops_api.Auth.Session.{PasswordChangeRequest, message, bad_length, change_password}

-- The row that a change of the password writes.
abbrev pub with_password : String → ℕ → OpsUser → OpsUser
with_password hash at u = record u {
  password_hash = hash;
  must_change_password = false;
  updated_at = at;
}

pub ne-empty_of_length : (p : String) → bad_length p ≡ false → p ≢ ""
unfolding bad_length
ne-empty_of_length p h e = let k = rw e at h in cc

module _ (c : Crypto) (h : AuthHandler) (r : Request PasswordChangeRequest) (user : User)
    (s : Store) where
  checks : PasswordChangeRequest → Bool
  checks req =
      not (req.old_password == "" || req.new_password == "")
      && not (bad_length req.new_password)
      && not (req.old_password == req.new_password)
      && c.compare user.password_hash req.old_password

  -- What `changePassword` checks before it writes.
  pub record IsAccepted (req : PasswordChangeRequest) : Type 0 where
    pub body : r.body ≡ some req
    pub old_given : req.old_password ≢ ""
    pub length : bad_length req.new_password ≡ false
    pub new : req.old_password ≢ req.new_password
    pub checked : c.compare user.password_hash req.old_password ≡ true

  change_password_writes :
      (req : PasswordChangeRequest) (hash : String)
      → r.body ≡ some req
      → c.generate r.salt req.new_password ≡ some hash
      → checks req ≡ true
      → ((change_password c h r user s).1.tables.ops ≡ s.tables.ops)
        ⊎ ((change_password c h r user s).1.tables.ops
            ≡ (update_where user.id (with_password hash r.now) s.tables).ops)
  unfolding change_password checks
  change_password_writes req hash body hashed passed = ground arith

  -- For every request and fault, `changePassword` either leaves the operators as they were, or the
  -- request passed its checks and the one change is the new hash, with the obligation to change
  -- the password cleared, in the row of the operator who asked.
  pub change_password_sound :
      ((change_password c h r user s).1.tables.ops ≡ s.tables.ops)
      ⊎ ((req : PasswordChangeRequest) × (hash : String) × IsAccepted req
          × (c.generate r.salt req.new_password ≡ some hash)
          × ((change_password c h r user s).1.tables.ops
              ≡ (update_where user.id (with_password hash r.now) s.tables).ops))
  unfolding change_password checks
  change_password_sound = elim (Option-cases r.body) [
    | inl unread ↦ inl (ground arith)
    | inr (req, body) ↦ elim (Option-cases (c.generate r.salt req.new_password)) [
      | inl failed ↦ inl (ground arith)
      | inr (hash, hashed) ↦ elim (Bool-cases (checks req)) [
        | inl passed ↦
            let accepted : IsAccepted req = record {
              body = body;
              old_given = ground (arith, eq_iff req.old_password "");
              length = ground arith;
              new = ground (arith, eq_iff req.old_password req.new_password);
              checked = ground arith;
            } in
            elim (change_password_writes req hash body hashed passed) [
              | inl same ↦ inl same
              | inr written ↦ inr (req, hash, accepted, hashed, written)
            ]
        | inr refused ↦ inl (ground arith)
      ]
    ]
  ]

  -- Where the request passes the checks, bcrypt hashes and the database works, the answer is 200,
  -- and the operators are those before with the new hash in the row of the one who asked.
  pub change_password_complete :
      (req : PasswordChangeRequest) (hash : String)
      → IsAccepted req
      → c.generate r.salt req.new_password ≡ some hash
      → s.faults ≡ []
      → ((change_password c h r user s).0 ≡ ok (json 200 (message "password changed")))
        × ((change_password c h r user s).1.tables.ops
            ≡ (update_where user.id (with_password hash r.now) s.tables).ops)
        × ((change_password c h r user s).1.faults ≡ [])
  unfolding change_password
  change_password_complete req hash a hashed calm =
      let given = ne-empty_of_length req.new_password a.length in
      (
        ground (
          arith,
          eq_iff req.old_password "",
          eq_iff req.new_password "",
          eq_iff req.old_password req.new_password,
        ),
        ground (
          arith,
          eq_iff req.old_password "",
          eq_iff req.new_password "",
          eq_iff req.old_password req.new_password,
        ),
        ground (
          arith,
          eq_iff req.old_password "",
          eq_iff req.new_password "",
          eq_iff req.old_password req.new_password,
        ),
      )

  -- By the documented laws of bcrypt, a request for a new password of 73 to 128 bytes, with an old
  -- password that is right and another, is not answered with the 400 of a bad length but with 500,
  -- and the operators stay as they were.
  pub change_password_too_long :
      (req : PasswordChangeRequest)
      → IsDocumented c
      → r.body ≡ some req
      → req.old_password ≢ ""
      → req.old_password ≢ req.new_password
      → c.compare user.password_hash req.old_password ≡ true
      → 72 < len req.new_password
      → len req.new_password ≤ 128
      → ((change_password c h r user s).0 ≡ err (reply (error 500 "hash error")))
        × ((change_password c h r user s).1.tables.ops ≡ s.tables.ops)
  unfolding change_password bad_length
  change_password_too_long req d body given other checked long short =
      let failed = d.too_long r.salt req.new_password long in
      let accepted : bad_length req.new_password ≡ false = ground arith in
      let named = ne-empty_of_length req.new_password accepted in
      (
        ground (
          arith,
          eq_iff req.old_password "",
          eq_iff req.new_password "",
          eq_iff req.old_password req.new_password,
        ),
        ground (
          arith,
          eq_iff req.old_password "",
          eq_iff req.new_password "",
          eq_iff req.old_password req.new_password,
        ),
      )
