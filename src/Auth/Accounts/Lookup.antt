-- ===== src/Auth/Accounts/Lookup.antt =====
-- What a look-up of an operator returns, for every fault of the database.
use osspilot_ops_api.Common.{
  ℕ, eqb, first-map, if◌then◌else◌, Bool, ℕ, ◌≡◌, refl, ◌⊎◌, Bool, Option, none, some, [], arith,
  first,
}
use osspilot_ops_api.Action.{ok, err}
use osspilot_ops_api.Database.{broken}
use osspilot_ops_api.Http.{database}
use osspilot_ops_api.Schema.{Tables, Store}
use osspilot_ops_api.Schema.Ops.{OpsUser}
use osspilot_ops_api.Auth.Accounts.{User, user_of, roles_of, update_where, scan_user}

module _ (t : Tables) where
  abbrev pub joined : Option OpsUser → Option User
  joined none = none
  joined (some u) = some (user_of u (roles_of t u.id))

  pub joined-eq-some :
      (found : Option OpsUser) (user : User)
      → joined found ≡ some user
      → (row : OpsUser) × (found ≡ some row) × (user_of row (roles_of t row.id) ≡ user)
  joined-eq-some none user e = cc
  joined-eq-some (some row) user e = (row, refl, cc)

-- The row that a look-up finds, after an update of it that the look-up's test does not see.
pub first-update_where :
    (t : Tables) (p : OpsUser → Bool) (id : ℕ) (f : OpsUser → OpsUser) (row : OpsUser)
    → ((u : OpsUser) → p (f u) ≡ p u)
    → first p t.users ≡ some row
    → row.id ≡ id
    → first p (update_where id f t).users ≡ some (f row)
first-update_where t p id f row same found is_row = ground (
  arith,
  first-map p (λ u. if eqb u.id id then f u else u) t.users row (λ x. ground (arith, same x)) found,
)

module _ (p : OpsUser → Bool) (s : Store) where
  pub tables-scan_user : (scan_user p s).1.tables ≡ s.tables
  unfolding scan_user
  tables-scan_user = ground arith

  -- A look-up fails as the database does, or returns the row with its roles.
  pub scan_user_lem :
      ((scan_user p s).0 ≡ err broken)
      ⊎ ((scan_user p s).0 ≡ ok (joined s.tables (first p s.tables.users)))
  unfolding scan_user
  scan_user_lem = ground arith

  -- Without faults it returns the row with its roles, and no fault is left.
  pub scan_user_no_faults :
      s.faults ≡ [] → scan_user p s ≡ (ok (joined s.tables (first p s.tables.users)), s)
  unfolding scan_user
  scan_user_no_faults h = ground arith

  -- In a handler, a look-up that does not answer 500 has returned the row with its roles.
  pub database-scan_user :
      {B : Type 0} (found : Option User)
      → (database {B = B} (scan_user p) s).0 ≡ ok found
      → found ≡ joined s.tables (first p s.tables.users)
  database-scan_user found e = ground (arith, scan_user_lem)
