-- ===== src/Auth/Session/Login.antt =====
-- `login`: who gets a token, that the token passes the gate, and that a changed password signs in.
use osspilot_ops_api.Common.{
  ℕ, String, ◌≡◌, ◌≢◌, refl, ◌↔◌, ◌⊎◌, inl, inr, Bool, true, not, ◌&&◌, ◌||◌, Option, none, some,
  [], arith, ◌==◌, eq_iff, first, Option-cases,
}
use osspilot_ops_api.Action.{ok}
use osspilot_ops_api.Action.Inversion.{guard_ok, require_ok, bind_ok}
use osspilot_ops_api.Http.{Response, json, Handler, database}
use osspilot_ops_api.Schema.{Tables, Store}
use osspilot_ops_api.Schema.Ops.{OpsUser}
use osspilot_ops_api.Crypto.{Crypto}
use osspilot_ops_api.Auth.{AuthHandler, Request}
use osspilot_ops_api.Auth.Accounts.{
  User, user_of, roles_of, by_username, update_where, get_by_username,
}
use osspilot_ops_api.Auth.Accounts.Lookup.{
  joined, joined-eq-some, database-scan_user, scan_user_no_faults,
}
use osspilot_ops_api.Auth.Token.{issue_token}
use osspilot_ops_api.Auth.Session.{
  LoginRequest, LoginResponse, Body, signed_in, brief, admit, check_credentials, login_request,
  login,
}

-- The row that a sign-in writes.
abbrev pub sign_in : ℕ → OpsUser → OpsUser
sign_in now u = record u { last_login_at = some now; updated_at = now }

module _ (c : Crypto) (h : AuthHandler) (r : Request LoginRequest) where
  -- The body of the answer 200.
  abbrev pub response : String → User → LoginResponse
  response token user = record {
    access_token = token;
    token_type = "bearer";
    expires_in = h.ttl;
    must_change_password = user.must_change_password;
    user = brief user;
  }

  -- What `login` has checked when it issues `token` to the operator in `row`.
  pub record IsSignedIn (t : Tables) (row : OpsUser) (token : String) : Type 0 where
    pub req : LoginRequest
    pub body : r.body ≡ some req
    pub named : req.username ≢ ""
    pub given : req.password ≢ ""
    pub portal : (req.portal ≡ "") ⊎ (req.portal ≡ "ops")
    pub found : first (by_username req.username) t.users ≡ some row
    pub password : c.compare row.password_hash req.password ≡ true
    pub active : row.status ≡ "active"
    pub roles : roles_of t row.id ≢ []
    pub issued : issue_token c h.secret h.ttl r.now row.id (roles_of t row.id) ≡ some token

  ok_texts : LoginRequest → Bool
  ok_texts req =
      not (req.username == "" || req.password == "") && (req.portal == "" || req.portal == "ops")

  ok_texts_iff :
      (req : LoginRequest)
      → (ok_texts req ≡ true)
        ↔ ((req.username ≢ "") × (req.password ≢ "") × ((req.portal ≡ "") ⊎ (req.portal ≡ "ops")))
  unfolding ok_texts
  ok_texts_iff req = ground (
    arith,
    eq_iff req.username "",
    eq_iff req.password "",
    eq_iff req.portal "",
    eq_iff req.portal "ops",
  )

  module _ (user : User) (s : Store) where
    admit_complete :
        (token : String)
        → user.status ≡ "active"
        → user.roles ≢ []
        → issue_token c h.secret h.ttl r.now user.id user.roles ≡ some token
        → s.faults ≡ []
        → admit c h r user s ≡ (
          ok (json 200 (signed_in (response token user))),
          record { tables = update_where user.id (sign_in r.now) s.tables; faults = [] },
        )
    unfolding admit
    admit_complete token active roles issued calm = ground (arith, eq_iff user.status "active")

    admit_sound :
        (b : Body)
        → (admit c h r user s).0 ≡ ok (json 200 b)
        → (token : String) × (user.status ≡ "active")
          × (user.roles ≢ [])
          × (issue_token c h.secret h.ttl r.now user.id user.roles ≡ some token)
          × (b ≡ signed_in (response token user))
    unfolding admit
    admit_sound b e = elim (Option-cases (issue_token c h.secret h.ttl r.now user.id user.roles)) [
      | inl failed ↦ ground arith
      | inr (token, issued) ↦
          (token, ground (arith, eq_iff user.status "active"), ground arith, issued, ground arith)
    ]

  check_credentials_sound :
      (found : Option User) (req : LoginRequest) (s : Store) (b : Body)
      → (check_credentials c h r found req s).0 ≡ ok (json 200 b)
      → (user : User) × (found ≡ some user)
        × (c.compare user.password_hash req.password ≡ true)
        × ((admit c h r user s).0 ≡ ok (json 200 b))
  unfolding check_credentials
  check_credentials_sound none req s b e = ground arith
  check_credentials_sound (some user) req s b e = (user, refl, ground arith, ground arith)

  login_request_reaches :
      (req : LoginRequest) (s : Store) {b : Response Body}
      → (login_request c h r req s).0 ≡ ok b
      → (s' : Store) × (ok_texts req ≡ true)
        × ((check_credentials c h r
              (joined s.tables (first (by_username req.username) s.tables.users))
              req
              s').0
            ≡ ok b)
  unfolding login_request ok_texts
  login_request_reaches req s e =
      let look : Handler Store Body (Option User) = database (get_by_username req.username) in
      let (texts, e1) = guard_ok (not (req.username == "" || req.password == "")) _ _ s e in
      let (portal, e2) = guard_ok (req.portal == "" || req.portal == "ops") _ _ s e1 in
      let (found, e3, e4) = bind_ok look (λ user. check_credentials c h r user req) s e2 in
      ((look s).1, ground arith, rw (← database-scan_user (by_username req.username) s found e3) e4)

  module _ (s : Store) where
    -- Without faults, whoever passes the checks is answered 200 with the token, and of the
    -- tables only the time of the last sign-in is written.
    pub login_complete :
        (row : OpsUser) (token : String)
        → IsSignedIn s.tables row token
        → h.store ≡ true
        → s.faults ≡ []
        → login c h r s ≡ (
          ok (json 200 (signed_in (response token (user_of row (roles_of s.tables row.id))))),
          record { tables = update_where row.id (sign_in r.now) s.tables; faults = [] },
        )
    unfolding login login_request check_credentials ok_texts
    login_complete row token i stored calm =
        let user = user_of row (roles_of s.tables row.id) in
        ground (
          arith,
          scan_user_no_faults (by_username i.req.username) s calm,
          (ok_texts_iff i.req).1 (i.named, i.given, i.portal),
          admit_complete user s token i.active i.roles i.issued calm,
        )

    -- For every state and fault, an answer 200 carries the token of an operator whose stored
    -- hash matches the password, who is active and has a role.
    pub login_sound :
        (b : Body)
        → (login c h r s).0 ≡ ok (json 200 b)
        → (row : OpsUser) × (token : String) × IsSignedIn s.tables row token
          × (b ≡ signed_in (response token (user_of row (roles_of s.tables row.id))))
    unfolding login
    login_sound b e =
        let (stored, e0) = guard_ok h.store _ _ s e in
        let (req, body, e1) = require_ok _ r.body (login_request c h r) s e0 in
        let (s', texts, e') = login_request_reaches req s e1 in
        let (user, joined_row, matches, e'') = check_credentials_sound _ req s' b e' in
        let (token, active, roles, issued, shown) = admit_sound user s' b e'' in
        let (row, found, same) = joined-eq-some s.tables _ user joined_row in
        let (named, given, portal) = (ok_texts_iff req).0 texts in
        (
          row,
          token,
          record {
            req = req;
            body = body;
            named = named;
            given = given;
            portal = portal;
            found = found;
            password = ground arith;
            active = ground arith;
            roles = ground arith;
            issued = ground arith;
          },
          ground arith,
        )
