-- ===== src/Auth/Gate.antt =====
-- What the gate before every handler (`RequireUser`, `RequireAdmin`) lets through.
use osspilot_ops_api.Common.{
  ◌≡◌, ◌≢◌, ◌⊎◌, inl, inr, true, false, none, some, [], arith, eq_iff, first, Bool-cases,
  Option-cases,
}
use osspilot_ops_api.Action.{Result-cases, guard, ok, err, ◌>>◌}
use osspilot_ops_api.Http.{error, Exit, reply, Handler, IsRefusal}
use osspilot_ops_api.Schema.{Tables, Store}
use osspilot_ops_api.Schema.Ops.{OpsUser}
use osspilot_ops_api.Crypto.{Crypto, Claims}
use osspilot_ops_api.Auth.{
  AuthHandler, Request, bearer_token, always_open, current_user, require_user, require_admin,
}
use osspilot_ops_api.Auth.Accounts.{User, user_of, roles_of, by_id, has_binding, has_role}
use osspilot_ops_api.Auth.Accounts.Lookup.{scan_user_lem, scan_user_no_faults, tables-scan_user}
use osspilot_ops_api.Auth.Token.{parse_token}

module _ {Q : Type 0} (c : Crypto) (h : AuthHandler) (r : Request Q) where
  -- What holds of a request that the gate lets through as `user`.
  pub record IsAdmitted (t : Tables) (user : User) : Type 0 where
    pub claims : Claims
    pub row : OpsUser
    pub token : parse_token c h.secret r.now (bearer_token r.authorization) ≡ some claims
    pub found : first (by_id claims.user_id) t.users ≡ some row
    pub fields : user ≡ user_of row (roles_of t row.id)
    pub active : row.status ≡ "active"
    pub changed : (row.must_change_password ≡ false) ⊎ (always_open r.path ≡ true)

  -- The parts of `IsAdmitted`, where the token names the operator of the row.
  module _ {B : Type 0} (s : Store) (user : User) (e : (current_user {B = B} c h r s).0 ≡ ok user)
      (claims : Claims)
      (token : parse_token c h.secret r.now (bearer_token r.authorization) ≡ some claims) where
    current_user-found : first (by_id claims.user_id) s.tables.users ≢ none
    unfolding current_user
    current_user-found missing = ground (arith, scan_user_lem (by_id claims.user_id) s)

    module _ (row : OpsUser) (found : first (by_id claims.user_id) s.tables.users ≡ some row) where
      current_user-fields : user ≡ user_of row (roles_of s.tables row.id)
      unfolding current_user
      current_user-fields = ground (arith, scan_user_lem (by_id claims.user_id) s)

      current_user-active : row.status ≡ "active"
      unfolding current_user
      current_user-active =
          ground (arith, scan_user_lem (by_id claims.user_id) s, eq_iff row.status "active")

      current_user-changed : (row.must_change_password ≡ false) ⊎ (always_open r.path ≡ true)
      unfolding current_user
      current_user-changed = ground (arith, scan_user_lem (by_id claims.user_id) s)

  current_user-token :
      {B : Type 0} (s : Store) (user : User)
      → (current_user {B = B} c h r s).0 ≡ ok user
      → parse_token c h.secret r.now (bearer_token r.authorization) ≢ none
  unfolding current_user
  current_user-token s user e bad = ground arith

  pub current_user-IsAdmitted :
      {B : Type 0} (s : Store) (user : User)
      → (current_user {B = B} c h r s).0 ≡ ok user
      → IsAdmitted s.tables user
  current_user-IsAdmitted s user e =
      elim (Option-cases (parse_token c h.secret r.now (bearer_token r.authorization))) [
        | inl bad ↦ absurd (current_user-token s user e bad)
        | inr (claims, good) ↦ elim (Option-cases (first (by_id claims.user_id) s.tables.users)) [
          | inl missing ↦ absurd (current_user-found s user e claims good missing)
          | inr (row, found) ↦ record {
            claims = claims;
            row = row;
            token = good;
            found = found;
            fields = current_user-fields s user e claims good row found;
            active = current_user-active s user e claims good row found;
            changed = current_user-changed s user e claims good row found;
          }
        ]
      ]

  module _ (B : Type 0) (s : Store) where
    -- The gate changes no table.
    pub tables-current_user : (current_user {B = B} c h r s).1.tables ≡ s.tables
    unfolding current_user
    tables-current_user = grind (arith, tables-scan_user)

    -- A refusal by the gate is an error answer, never a panic.
    pub current_user-IsRefusal : (e : Exit B) → (current_user c h r s).0 ≡ err e → IsRefusal 401 e
    unfolding current_user
    current_user-IsRefusal e p = grind arith

module _ {B Q A : Type 0} (c : Crypto) (h : AuthHandler) (r : Request Q)
    (next : User → Handler Store B A) (s : Store) where
  -- For every request, state and fault, either `next` is called once, for an active operator that
  -- the token names and who may not have to change the password first, in unchanged tables; or
  -- the answer is an error and the tables are unchanged.
  pub require_user_sound :
      ((user : User) × (s' : Store) × IsAdmitted c h r s.tables user
        × (s'.tables ≡ s.tables)
        × (require_user c h r next s ≡ next user s'))
      ⊎ ((e : Exit B) × IsRefusal 401 e
          × ((require_user c h r next s).0 ≡ err e)
          × ((require_user c h r next s).1.tables ≡ s.tables))
  unfolding require_user
  require_user_sound = elim (Result-cases (current_user {B = B} c h r s).0) [
    | inl (user, e) ↦ inl (
      user,
      (current_user {B = B} c h r s).1,
      current_user-IsAdmitted c h r s user e,
      tables-current_user c h r B s,
      rw e,
    )
    | inr (e, p) ↦
        inr (e, current_user-IsRefusal c h r B s e p, rw p, rw p (tables-current_user c h r B s))
  ]

  -- Without faults, an admitted request with a token reaches `next` in the very same state.
  pub require_user_complete :
      (user : User)
      → IsAdmitted c h r s.tables user
      → h.store ≡ true
      → s.faults ≡ []
      → bearer_token r.authorization ≢ ""
      → require_user c h r next s ≡ next user s
  unfolding require_user current_user
  require_user_complete user a stored calm sent = ground (
    arith,
    scan_user_no_faults (by_id a.claims.user_id) s calm,
    eq_iff (bearer_token r.authorization) "",
    eq_iff a.row.status "active",
  )

module _ (t : Tables) (row : OpsUser) where
  -- The roles of an operator are the rows of `ops_user_roles`.
  pub has_role-user_of :
      has_role (user_of row (roles_of t row.id)) "platform_admin"
      ≡ has_binding t.bindings row.id "platform_admin"
  unfolding has_role roles_of
  has_role-user_of = ground arith

module _ {B Q A : Type 0} (c : Crypto) (h : AuthHandler) (r : Request Q)
    (next : User → Handler Store B A) (s : Store) where
  abbrev admin_only : User → Handler Store B A
  admin_only user = do
    guard (has_role user "platform_admin") (reply (error 403 "Platform admin role required"))
    next user

  -- For every request, state and fault, a handler behind `RequireAdmin` runs only for an admitted
  -- operator who is bound to the role platform_admin, in unchanged tables; any other request gets
  -- an error answer and changes no table.
  pub require_admin_sound :
      ((user : User) × (s' : Store) × (a : IsAdmitted c h r s.tables user) × (has_binding
            s.tables.bindings a.row.id "platform_admin"
          ≡ true)
        × (s'.tables ≡ s.tables)
        × (require_admin c h r next s ≡ next user s'))
      ⊎ ((e : Exit B) × IsRefusal 401 e
          × ((require_admin c h r next s).0 ≡ err e)
          × ((require_admin c h r next s).1.tables ≡ s.tables))
  unfolding require_admin
  require_admin_sound = elim (require_user_sound c h r admin_only s) [
    | inr refused ↦ inr refused
    | inl (user, s', a, same, e) ↦ elim (Bool-cases (has_role user "platform_admin")) [
      | inl admin ↦
          inl (user, s', a, ground (arith, has_role-user_of s.tables a.row), same, rw e (rw admin))
      | inr other ↦ inr (
        reply (error 403 "Platform admin role required"),
        omega arith,
        rw e (rw other),
        rw e (rw other same),
      )
    ]
  ]
