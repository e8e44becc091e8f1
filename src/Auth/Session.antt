-- ===== src/Auth/Session.antt =====
-- internal/auth/handler.go: the handlers `login`, `logout`, `me` and `changePassword`, and
-- internal/auth/password.go.
pub mod Login
pub mod Change
pub mod RoundTrip
use Prim.Native.String.{len}
use osspilot_ops_api.Common.{
  ℕ, ltb, String, Bool, true, false, not, ◌&&◌, ◌||◌, Option, none, some, List, [], ◌∷◌, ◌==◌,
  if◌then◌else◌,
}
use osspilot_ops_api.Action.{Result, ok, err, Action, attempt, ◌>>=◌, ◌>>◌, pure, guard, require}
use osspilot_ops_api.Database.{DbError}
use osspilot_ops_api.Http.{Response, error, json, Exit, reply, Handler, refuse, database}
use osspilot_ops_api.Schema.{Store}
use osspilot_ops_api.Crypto.{Crypto}
use osspilot_ops_api.Audit.{record_entry, ignore}
use osspilot_ops_api.Auth.{AuthHandler, Request}
use osspilot_ops_api.Auth.Accounts.{User, get_by_username, touch_login, update_password}
use osspilot_ops_api.Auth.Token.{portal_ops, issue_token}

pub record LoginRequest : Type 0 where
  pub username : String
  pub password : String
  pub portal : String

pub record UserBrief : Type 0 where
  pub id : ℕ
  pub username : String
  pub display_name : Option String
  pub roles : List String
  pub must_change_password : Bool

pub record LoginResponse : Type 0 where
  pub access_token : String
  pub token_type : String
  pub expires_in : ℕ
  pub must_change_password : Bool
  pub user : UserBrief

pub record MeResponse : Type 0 where
  pub id : ℕ
  pub username : String
  pub display_name : Option String
  pub email : Option String
  pub phone : Option String
  pub status : String
  pub portal : String
  pub roles : List String
  pub last_login_at : Option ℕ
  pub must_change_password : Bool

pub record PasswordChangeRequest : Type 0 where
  pub old_password : String
  pub new_password : String

pub data Body : Type 0 where
  signed_in : LoginResponse → Body
  profile : MeResponse → Body
  message : String → Body

-- `HashPassword`
abbrev pub hash_password : Crypto → ℕ → String → Option String
hash_password c salt password = c.generate salt password

-- `CheckPassword`
abbrev pub check_password : Crypto → String → String → Bool
check_password c password hash = c.compare hash password

-- `len(p) < 8 || len(p) > 128`: `len` counts bytes.
unfoldable pub bad_length : String → Bool
bad_length password = ltb (len password) 8 || ltb 128 (len password)

-- `CheckCreatePassword`: "" where the password is accepted.
unfoldable pub check_create_password : String → String → Bool → String
unfolding bad_length
check_create_password password confirm must_change =
    if bad_length password
    then "password must be 8-128 characters"
    else if not must_change && not (password == confirm)
    then "passwords do not match"
    else ""

module _ {F Q : Type 0} (h : AuthHandler) (r : Request Q) where
  -- `(*Handler).audit`
  unfoldable pub audit : Option User → String → String → String → String → Action Store F Unit
  unfolding record_entry
  audit none username action status detail =
      record_entry h.log r.origin 0 username action status detail
  audit (some user) username action status detail =
      record_entry h.log r.origin user.id user.username action status detail

abbrev pub brief : User → UserBrief
brief user = record {
  id = user.id;
  username = user.username;
  display_name = user.display_name;
  roles = user.roles;
  must_change_password = user.must_change_password;
}

abbrev pub is_empty : List String → Bool
is_empty [] = true
is_empty (x ∷ xs) = false

module _ (c : Crypto) (h : AuthHandler) where
  module _ (r : Request LoginRequest) where
    -- `login` from the check of the status on, for an operator whose password was right
    unfoldable pub admit : User → Handler Store Body (Response Body)
    unfolding issue_token touch_login
    admit user = do
      guard (user.status == "active") (reply (error 403 "Account is disabled"))
      guard (not (is_empty user.roles)) (reply (error 403 "No ops portal access"))
      token ←
          require (reply (error 500 "token error"))
            (issue_token c h.secret h.ttl r.now user.id user.roles)
      ignore (touch_login user.id r.now)
      pure (
          json 200 (
            signed_in (record {
              access_token = token;
              token_type = "bearer";
              expires_in = h.ttl;
              must_change_password = user.must_change_password;
              user = brief user;
            })))

    unfoldable pub reject : Option User → String → Handler Store Body (Response Body)
    unfolding audit
    reject user username = do
      audit h r user username "login_failed" "failure" "Invalid username or password"
      refuse 401 "Invalid username or password"

    -- `user == nil || !CheckPassword(…)`
    unfoldable pub check_credentials :
        Option User → LoginRequest → Handler Store Body (Response Body)
    unfolding admit reject
    check_credentials none req = reject none req.username
    check_credentials (some user) req =
        if check_password c req.password user.password_hash
        then admit user
        else reject (some user) req.username

    -- `login` once the body is decoded
    unfoldable pub login_request : LoginRequest → Handler Store Body (Response Body)
    login_request req = do
      guard (not (req.username == "" || req.password == ""))
          (reply (error 400 "username and password are required"))
      guard (req.portal == "" || req.portal == portal_ops) (reply (error 400 "portal must be ops"))
      user ← database (get_by_username req.username)
      check_credentials user req

    unfoldable pub login : Handler Store Body (Response Body)
    login = do
      guard h.store (reply (error 503 "database is not configured"))
      req ← require (reply (error 400 "invalid json")) r.body
      login_request req

  module _ (r : Request PasswordChangeRequest) (user : User) where
    unfoldable pub password_stored : Result DbError Unit → Handler Store Body (Response Body)
    unfolding audit
    password_stored (err e) = do
      audit h r (some user) "" "password_change" "failure" "database error"
      refuse 500 "database error"
    password_stored (ok _) = do
      audit h r (some user) "" "password_change" "success" ""
      pure (json 200 (message "password changed"))

    -- `changePassword` once the old password was right
    unfoldable pub store_hash : Option String → Handler Store Body (Response Body)
    unfolding password_stored update_password
    store_hash none = do
      audit h r (some user) "" "password_change" "failure" "hash error"
      refuse 500 "hash error"
    store_hash (some hash) = do
      outcome ← attempt (update_password user.id hash r.now)
      password_stored outcome

    unfoldable pub wrong_password : Handler Store Body (Response Body)
    unfolding audit
    wrong_password = do
      audit h r (some user) "" "password_change" "failure" "Current password is incorrect"
      refuse 400 "Current password is incorrect"

    unfoldable pub change_password : Handler Store Body (Response Body)
    unfolding store_hash wrong_password bad_length
    change_password = do
      req ← require (reply (error 400 "invalid json")) r.body
      guard (not (req.old_password == "" || req.new_password == ""))
          (reply (error 400 "old_password and new_password are required"))
      guard (not (bad_length req.new_password))
          (reply (error 400 "new_password must be 8-128 characters"))
      guard (not (req.old_password == req.new_password))
          (reply (error 400 "new_password must differ from old_password"))
      if check_password c req.old_password user.password_hash
          then store_hash (hash_password c r.salt req.new_password)
          else wrong_password

-- `logout`
unfoldable pub logout : User → Handler Store Body (Response Body)
logout user = pure (json 200 (message "logged out"))

-- `me`; the time of the last sign-in is formatted by the encoder.
unfoldable pub me : User → Handler Store Body (Response Body)
me user = pure (
    json 200 (
      profile (record {
        id = user.id;
        username = user.username;
        display_name = user.display_name;
        email = user.email;
        phone = user.phone;
        status = user.status;
        portal = portal_ops;
        roles = user.roles;
        last_login_at = user.last_login_at;
        must_change_password = user.must_change_password;
      })))
