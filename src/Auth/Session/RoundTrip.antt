-- ===== src/Auth/Session/RoundTrip.antt =====
-- The handlers of internal/auth together: a token that `login` issues passes `RequireUser`, and a
-- password that `changePassword` stores signs in.
use Prim.Native.String
use osspilot_ops_api.Common.{
  ℕ, ◌+◌, ◌<◌, String, ◌≡◌, ◌≢◌, refl, ap, ◌⊎◌, true, false, some, List, [], arith, ◌∙◌, first,
}
use osspilot_ops_api.Common.Text.{trim_space, strip_prefix-append}
use osspilot_ops_api.Action.{Result, ok}
use osspilot_ops_api.Http.{Response, json, Exit, Handler}
use osspilot_ops_api.Schema.{Store}
use osspilot_ops_api.Schema.Ops.{OpsUser}
use osspilot_ops_api.Crypto.{Crypto, IsDocumented}
use osspilot_ops_api.Auth.{AuthHandler, Request, bearer_token, always_open, require_user}
use osspilot_ops_api.Auth.Accounts.{User, user_of, roles_of, by_id, by_username, update_where}
use osspilot_ops_api.Auth.Accounts.Lookup.{first-update_where}
use osspilot_ops_api.Auth.Token.{issue_token, parse_token, claims_for}
use osspilot_ops_api.Auth.Gate.{require_user_complete}
use osspilot_ops_api.Auth.Session.{
  LoginRequest, PasswordChangeRequest, Body, signed_in, login, change_password,
}
use osspilot_ops_api.Auth.Session.Login.{IsSignedIn, response, sign_in, login_complete}
use osspilot_ops_api.Auth.Session.Change.{
  IsAccepted, with_password, ne-empty_of_length, change_password_complete,
}

bearer_token_lem :
    (token : String) → trim_space token ≡ token → bearer_token (String.◌++◌ "Bearer " token) ≡ token
unfolding bearer_token
bearer_token_lem token h = ground (arith, strip_prefix-append "Bearer " token)

module _ (c : Crypto) (d : IsDocumented c) (h : AuthHandler) where
  parse-issue :
      (now later user_id : ℕ) (roles : List String) (token : String)
      → issue_token c h.secret h.ttl now user_id roles ≡ some token
      → later < now + h.ttl
      → parse_token c h.secret later token ≡ some (claims_for now h.ttl user_id roles)
  unfolding issue_token parse_token
  parse-issue now later user_id roles token issued fresh =
      ground (arith, d.signed h.secret token (claims_for now h.ttl user_id roles) later)

  module _ (r : Request LoginRequest) (s : Store) {Q B A : Type 0} (r' : Request Q) where
    -- In the state that a `login` without faults leaves, by an operator whose row is the first of its
    -- id, the token that it issued lets its bearer through the gate until the token expires, where no
    -- password change is due or the path is open to all, and the token is not empty and has no space
    -- at its ends: the next handler is called for that operator.
    pub token_admits :
        (row : OpsUser) (token : String) (next : User → Handler Store B A)
        → IsSignedIn c h r s.tables row token
        → h.store ≡ true
        → s.faults ≡ []
        → first (by_id row.id) s.tables.users ≡ some row
        → (row.must_change_password ≡ false) ⊎ (always_open r'.path ≡ true)
        → trim_space token ≡ token
        → token ≢ ""
        → r'.authorization ≡ String.◌++◌ "Bearer " token
        → r'.now < r.now + h.ttl
        → require_user c h r' next (login c h r s).1
          ≡ next (user_of (sign_in r.now row) (roles_of s.tables row.id)) (login c h r s).1
    unfolding roles_of
    token_admits row token next i stored calm found changed trimmed given header fresh =
        let done = login_complete c h r s row token i stored calm in
        let raw = ap bearer_token header ∙ bearer_token_lem token trimmed in
        let t = update_where row.id (sign_in r.now) s.tables in
        rw done (
          require_user_complete c h r' next (record { tables = t; faults = [] })
            (user_of (sign_in r.now row) (roles_of s.tables row.id))
            (record {
              claims = claims_for r.now h.ttl row.id (roles_of s.tables row.id);
              row = sign_in r.now row;
              token = rw raw (parse-issue r.now r'.now row.id _ token i.issued fresh);
              found =
                  first-update_where s.tables (by_id row.id) row.id (sign_in r.now) row (λ u. refl)
                    found refl;
              fields = refl;
              active = i.active;
              changed = changed;
            })
            stored refl (rw raw given))

  module _ (user : User) (row : OpsUser) (s : Store) (r : Request PasswordChangeRequest)
      (r' : Request LoginRequest) where
    -- After `changePassword` was answered without faults, the operator signs in with the new
    -- password: `login` with the user name and the new password is answered with the token that
    -- is signed for the operator, and no longer asks for a change of the password.
    pub change_then_login :
        (req : PasswordChangeRequest) (hash token portal : String)
        → IsAccepted c h r user s req
        → c.generate r.salt req.new_password ≡ some hash
        → s.faults ≡ []
        → h.store ≡ true
        → first (by_username user.username) s.tables.users ≡ some row
        → row.id ≡ user.id
        → row.status ≡ "active"
        → roles_of s.tables row.id ≢ []
        → user.username ≢ ""
        → (portal ≡ "") ⊎ (portal ≡ "ops")
        → r'.body
          ≡ some (record { username = user.username; password = req.new_password; portal = portal })
        → issue_token c h.secret h.ttl r'.now row.id (roles_of s.tables row.id) ≡ some token
        → (u : User) × (u.id ≡ user.id)
          × (u.must_change_password ≡ false)
          × ((login c h r' (change_password c h r user s).1).0
              ≡ ok (json 200 (signed_in (response c h r' token u))))
    unfolding roles_of
    change_then_login req hash token portal a hashed calm stored found is_row active bound named
          allowed body issued =
        let (answered, written, still) =
          change_password_complete c h r user s req hash a hashed calm in
        let s' = (change_password c h r user s).1 in
        let row' = with_password hash r.now row in
        let same : roles_of s'.tables row.id ≡ roles_of s.tables row.id = ground arith in
        (
          user_of row' (roles_of s'.tables row.id),
          is_row,
          refl,
          ap (λ (x : Result (Exit Body) (Response Body) × Store). x.0)
              (login_complete c h r' s' row' token
                (record {
                  req = record {
                    username = user.username;
                    password = req.new_password;
                    portal = portal;
                  };
                  body = body;
                  named = named;
                  given = ne-empty_of_length req.new_password a.length;
                  portal = allowed;
                  found = ground (
                    arith,
                    first-update_where s.tables (by_username user.username) user.id
                        (with_password hash r.now) row (λ u. refl),
                  );
                  password = d.generated r.salt req.new_password hash hashed;
                  active = active;
                  roles = rw same bound;
                  issued = rw same issued;
                })
                stored still),
        )
