-- ===== src/Auth/Tests.antt =====
-- Tests of internal/auth, and its theorems at concrete requests.
use osspilot_ops_api.Common.{
  String, ◌≡◌, ◌≢◌, refl, ap, inl, inr, ◌⊎◌, true, false, Option, none, some, [], ◌∷◌, arith,
  eq_iff,
}
use osspilot_ops_api.Common.Decimal.{format_ℕ}
use osspilot_ops_api.Action.{Result, ok, err}
use osspilot_ops_api.Database.{exec, query}
use osspilot_ops_api.Http.{Response, error, json, Exit, reply, IsRefusal}
use osspilot_ops_api.Schema.{empty_tables, Store}
use osspilot_ops_api.Schema.Ops.{OpsUser}
use osspilot_ops_api.Crypto.Toy.{toy, sample_claims, toy-IsDocumented}
use osspilot_ops_api.Audit.{Origin}
use osspilot_ops_api.Auth.{
  AuthHandler, Request, bearer_token, require_user, require_admin, current_user,
}
use osspilot_ops_api.Auth.Accounts.{User, scan_user, user_of, roles_of, has_binding, update_where}
use osspilot_ops_api.Auth.Token.{issue_token, parse_token}
use osspilot_ops_api.Auth.Gate.{
  IsAdmitted, require_user_complete, require_user_sound, require_admin_sound,
}
use osspilot_ops_api.Auth.Session.{
  LoginRequest, PasswordChangeRequest, Body, signed_in, login, change_password, me, bad_length,
}
use osspilot_ops_api.Auth.Session.Login.{IsSignedIn, response, sign_in, login_complete, login_sound}
use osspilot_ops_api.Auth.Session.Change.{
  IsAccepted, with_password, change_password_sound, change_password_too_long,
}
use osspilot_ops_api.Auth.Session.RoundTrip.{token_admits, change_then_login}

abbrev admin_row : OpsUser
admin_row = record {
  id = 1;
  username = "admin";
  password_hash = "admin-password";
  display_name = some "Administrator";
  email = none;
  phone = none;
  status = "active";
  must_change_password = false;
  last_login_at = none;
  created_at = 1;
  updated_at = 1;
}

abbrev start : Store
start = record {
  tables = record empty_tables {
    ops = record {
      users = admin_row ∷ [];
      bindings = record { user_id = 1; role = "platform_admin" } ∷ [];
      next_user_id = 2;
    };
  };
  faults = [];
}

abbrev handler : AuthHandler
handler = record { store = true; log = true; secret = "k"; ttl = 3600 }

abbrev origin : Origin
origin = record { source_ip = none; user_agent = none }

abbrev ask : {Q : Type 0} → String → String → Option Q → Request Q
ask path authorization body = record {
  path = path;
  authorization = authorization;
  path_value = λ name. "";
  body = body;
  origin = origin;
  now = 100;
  salt = 0;
}

abbrev me_request : Request Unit
me_request = ask "/api/users" "Bearer t" none

abbrev admin : User
admin = user_of admin_row ("platform_admin" ∷ [])

everything : Unit {0}
unfolding current_user bearer_token parse_token roles_of require_admin require_user login
    change_password issue_token exec query has_binding format_ℕ scan_user
everything = tt

admitted : IsAdmitted toy handler me_request start.tables admin
unfolding everything
admitted = record {
  claims = sample_claims;
  row = admin_row;
  token = refl;
  found = refl;
  fields = refl;
  active = refl;
  changed = inl refl;
}

token_present : bearer_token me_request.authorization ≢ ""
unfolding everything
token_present = ground (arith, eq_iff "t" "")

-- A token passes, and the answer of `me` follows.
me_runs : (require_user {A = Response Body} toy handler me_request me start).1 ≡ start
unfolding everything me
me_runs = refl

no_token :
    (require_user {A = Response Body} toy handler (ask {Q = Unit} "/api/me" "" none) me start).0
    ≡ err (reply (error 401 "missing token"))
unfolding everything
no_token = refl

require_user_sound_example :
    ((user : User) × (s' : Store) × IsAdmitted toy handler me_request start.tables user
      × (s'.tables ≡ start.tables)
      × (require_user toy handler me_request me start ≡ me user s'))
    ⊎ ((e : Exit Body) × IsRefusal 401 e
        × ((require_user toy handler me_request me start).0 ≡ err e)
        × ((require_user toy handler me_request me start).1.tables ≡ start.tables))
require_user_sound_example = require_user_sound toy handler me_request me start

require_user_complete_example : require_user toy handler me_request me start ≡ me admin start
require_user_complete_example =
    require_user_complete toy handler me_request me start admin admitted refl refl token_present

require_admin_sound_example :
    ((user : User) × (s' : Store) × (a : IsAdmitted toy handler me_request start.tables user)
      × (has_binding start.tables.bindings a.row.id "platform_admin" ≡ true)
      × (s'.tables ≡ start.tables)
      × (require_admin toy handler me_request me start ≡ me user s'))
    ⊎ ((e : Exit Body) × IsRefusal 401 e
        × ((require_admin toy handler me_request me start).0 ≡ err e)
        × ((require_admin toy handler me_request me start).1.tables ≡ start.tables))
require_admin_sound_example = require_admin_sound toy handler me_request me start

abbrev credentials : LoginRequest
credentials = record { username = "admin"; password = "admin-password"; portal = "" }

abbrev login_ask : Request LoginRequest
login_ask = ask "/api/login" "" (some credentials)

IsSignedIn-admin : IsSignedIn toy handler login_ask start.tables admin_row "t"
unfolding everything
IsSignedIn-admin = record {
  req = credentials;
  body = refl;
  named = ground (arith, eq_iff "admin" "");
  given = ground (arith, eq_iff "admin-password" "");
  portal = inl refl;
  found = refl;
  password = refl;
  active = refl;
  roles = cc;
  issued = refl;
}

login_complete_example : login toy handler login_ask start ≡ (
  ok (
      json 200 (
        signed_in
          (response toy handler login_ask "t" (user_of admin_row (roles_of start.tables 1))))),
  record { tables = update_where 1 (sign_in 100) start.tables; faults = [] },
)
login_complete_example =
    login_complete toy handler login_ask start admin_row "t" IsSignedIn-admin refl refl

login_sound_example :
    (row : OpsUser) × (token : String) × IsSignedIn toy handler login_ask start.tables row token
    × (signed_in (response toy handler login_ask "t" (user_of admin_row (roles_of start.tables 1)))
        ≡ signed_in
            (response toy handler login_ask token (user_of row (roles_of start.tables row.id))))
login_sound_example =
    login_sound toy handler login_ask start
      (signed_in (response toy handler login_ask "t" (user_of admin_row (roles_of start.tables 1))))
      (ap (λ (x : Result (Exit Body) (Response Body) × Store). x.0) login_complete_example)

abbrev later_ask : Request Unit
later_ask = record me_request { now = 200 }

token_admits_example :
    require_user toy handler later_ask me (login toy handler login_ask start).1
    ≡ me
        (user_of (sign_in 100 admin_row) (roles_of start.tables 1))
        (login toy handler login_ask start).1
unfolding everything
token_admits_example =
    token_admits toy toy-IsDocumented handler login_ask start later_ask admin_row "t" me
      IsSignedIn-admin refl refl refl (inl refl) refl (ground (arith, eq_iff "t" "")) refl
      (omega arith)

abbrev change : PasswordChangeRequest
change = record { old_password = "admin-password"; new_password = "new-password" }

abbrev change_ask : Request PasswordChangeRequest
change_ask = ask "/api/password/change" "Bearer t" (some change)

change-IsAccepted : IsAccepted toy handler change_ask admin start change
unfolding bad_length
change-IsAccepted = record {
  body = refl;
  old_given = ground (arith, eq_iff "admin-password" "");
  length = refl;
  new = ground (arith, eq_iff "admin-password" "new-password");
  checked = refl;
}

change_password_sound_example :
    ((change_password toy handler change_ask admin start).1.tables.ops ≡ start.tables.ops)
    ⊎ ((req : PasswordChangeRequest) × (hash : String) × IsAccepted toy handler change_ask admin
          start req
        × (toy.generate 0 req.new_password ≡ some hash)
        × ((change_password toy handler change_ask admin start).1.tables.ops
            ≡ (update_where 1 (with_password hash 100) start.tables).ops))
change_password_sound_example = change_password_sound toy handler change_ask admin start

change_then_login_example :
    (u : User) × (u.id ≡ 1)
    × (u.must_change_password ≡ false)
    × ((login toy handler
          (ask "/api/login" ""
            (some (record { username = "admin"; password = "new-password"; portal = "ops" })))
          (change_password toy handler change_ask admin start).1).0
        ≡ ok (
            json 200 (
              signed_in (
                response toy handler
                  (ask "/api/login" "" (
                    some
                      (record { username = "admin"; password = "new-password"; portal = "ops" })))
                  "t"
                  u))))
unfolding everything
change_then_login_example =
    change_then_login toy toy-IsDocumented handler admin admin_row start change_ask
      (ask "/api/login" ""
        (some (record { username = "admin"; password = "new-password"; portal = "ops" })))
      change "new-password" "t" "ops" change-IsAccepted refl refl refl refl refl refl (cc)
      (ground (arith, eq_iff "admin" "")) (inr refl) refl refl

abbrev long_password : String
long_password = "0123456789012345678901234567890123456789012345678901234567890123456789012345"

abbrev long_change : PasswordChangeRequest
long_change = record { old_password = "admin-password"; new_password = long_password }

abbrev long_ask : Request PasswordChangeRequest
long_ask = ask "/api/password/change" "Bearer t" (some long_change)

change_password_too_long_example :
    ((change_password toy handler long_ask admin start).0 ≡ err (reply (error 500 "hash error")))
    × ((change_password toy handler long_ask admin start).1.tables.ops ≡ start.tables.ops)
change_password_too_long_example =
    change_password_too_long toy handler long_ask admin start long_change toy-IsDocumented refl
      (ground (arith, eq_iff "admin-password" ""))
      (ground (arith, eq_iff "admin-password" long_password)) refl (omega arith) (omega arith)
