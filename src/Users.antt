-- ===== src/Users.antt =====
-- internal/users: the management of operators by platform administrators.
pub mod Roles
pub mod Accounts
pub mod Writes
pub mod Safety
pub mod Actor
pub mod Create
pub mod WellFormed
pub mod Requests
use Prim.Native.String.{len}
use osspilot_ops_api.Common.{
  ℕ, eqb, ltb, String, Bool, true, false, not, ◌&&◌, ◌||◌, Option, none, some, List, [], ◌∷◌, map,
  length, ◌==◌, if◌then◌else◌,
}
use osspilot_ops_api.Common.Text.{trim_space}
use osspilot_ops_api.Common.Decimal.{parse_id}
use osspilot_ops_api.Action.{
  Result, ok, err, Action, attempt, ◌>>=◌, ◌>>◌, pure, guard, require, stop,
}
use osspilot_ops_api.Database.{DbError, no_rows, unique_violation, broken}
use osspilot_ops_api.Http.{
  Response, error, json, no_content, Exit, reply, panic, Handler, refuse, database,
}
use osspilot_ops_api.Schema.{Store}
use osspilot_ops_api.Crypto.{Crypto}
use osspilot_ops_api.Audit.{write_entry}
use osspilot_ops_api.Auth.{Request}
use osspilot_ops_api.Auth.Accounts.{User}
use osspilot_ops_api.Auth.Session.{hash_password, bad_length, check_create_password}
use Roles.{normalize_roles}
use Accounts.{Record, list_records, get_record, insert, update_record, reset_hash, delete}

-- `users.Handler`: whether it has a store and an audit log.
pub record UsersHandler : Type 0 where
  pub store : Bool
  pub audit : Bool

pub record CreateRequest : Type 0 where
  pub username : String
  pub password : String
  pub display_name : Option String
  pub email : Option String
  pub phone : Option String
  pub ops_roles : List String
  pub must_change_password : Option Bool
  pub confirm_password : String

-- `ops_roles` is `none` where the request leaves the field out.
pub record UpdateRequest : Type 0 where
  pub display_name : Option String
  pub email : Option String
  pub phone : Option String
  pub status : Option String
  pub ops_roles : Option (List String)

-- `toResponse` is left to the encoder, which formats the times.
pub data Body : Type 0 where
  items : List Record → ℕ → Body
  item : Record → Body
  message : String → Body

-- `boolOr`
abbrev pub bool_or : Option Bool → Bool → Bool
bool_or none fallback = fallback
bool_or (some v) fallback = v

-- `emptyToNil`
unfoldable pub empty_to_nil : Option String → Option String
empty_to_nil none = none
empty_to_nil (some s) = let t = trim_space s in if t == "" then none else some t

-- `if req.X != nil { u.X = emptyToNil(req.X) }`
abbrev pub given_or : Option String → Option String → Option String
given_or none old = old
given_or (some s) old = empty_to_nil (some s)

module _ (h : UsersHandler) {Q : Type 0} (r : Request Q) where
  -- `pathID`
  unfoldable pub path_id : Handler Store Body ℕ
  path_id = require (reply (error 400 "invalid user_id")) (parse_id (r.path_value "user_id"))

  -- `load`
  unfoldable pub load : Handler Store Body Record
  unfolding path_id
  load = do
    id ← path_id
    guard h.store (reply (error 503 "database is not configured"))
    found ← database (get_record id)
    require (reply (error 404 "User not found")) found

  unfoldable pub list : Handler Store Body (Response Body)
  list = do
    guard h.store (reply (error 503 "database is not configured"))
    records ← database list_records
    pure (json 200 (items records (length records)))

  unfoldable pub get : Handler Store Body (Response Body)
  unfolding load
  get = do u ← load; pure (json 200 (item u))

-- `ErrConflict` is a unique violation.
abbrev pub inserted : Result DbError Record → Handler Store Body Record
inserted (ok u) = pure u
inserted (err unique_violation) = refuse 409 "Username already exists"
inserted (err _) = refuse 500 "database error"

-- `errors.Is(err, pgx.ErrNoRows)`
abbrev pub deleted : Result DbError Unit → Handler Store Body Unit
deleted (ok _) = pure tt
deleted (err no_rows) = refuse 404 "User not found"
deleted (err _) = refuse 500 "database error"

-- `if err != nil { httpx.Error(w, http.StatusBadRequest, err.Error()); return }`
abbrev pub or_400 : {A : Type 0} → Result String A → Handler Store Body A
or_400 (ok a) = pure a
or_400 (err detail) = refuse 400 detail

module _ (c : Crypto) (h : UsersHandler) (r : Request CreateRequest) (actor : User) where
  unfoldable pub create : Handler Store Body (Response Body)
  unfolding check_create_password
  create = do
    guard h.store (reply (error 503 "database is not configured"))
    req ← require (reply (error 400 "invalid json")) r.body
    let username = trim_space req.username
    guard (not (username == "")) (reply (error 400 "username is required"))
    guard (not (ltb 64 (len username))) (reply (error 400 "username must be at most 64 characters"))
    let must = bool_or req.must_change_password true
    let problem = check_create_password req.password req.confirm_password must
    guard (problem == "") (reply (error 400 problem))
    roles ← or_400 (normalize_roles req.ops_roles)
    hash ← require (reply (error 500 "hash error")) (hash_password c r.salt req.password)
    outcome ← attempt (
        insert username hash (empty_to_nil req.display_name) (empty_to_nil req.email)
          (empty_to_nil req.phone) roles must r.now)
    u ← inserted outcome
    write_entry h.audit r.origin actor.id actor.username "user_create" "" "success" ""
    pure (json 201 (item u))

module _ (actor : User) where
  -- The tests on `req.Status`, with the status that is left in the record.
  unfoldable pub check_status : Record → Option String → Handler Store Body String
  check_status u none = pure u.status
  check_status u (some status) = do
    guard (status == "active" || status == "disabled")
        (reply (error 400 "Invalid status; expected one of: active, disabled"))
    guard (not (status == "disabled" && eqb actor.id u.id))
        (reply (error 400 "Cannot disable your own account"))
    pure status

-- `normalizeRoles` where the request names roles
unfoldable pub check_roles : Option (List String) → Handler Store Body (Option (List String))
check_roles none = pure none
check_roles (some names) = do roles ← or_400 (normalize_roles names); pure (some roles)

abbrev pub update_action : Option (List String) → String
update_action none = "user_update"
update_action (some _) = "modify_user_role"

-- The fields that `update` sets in the record
abbrev pub changed : Record → UpdateRequest → String → ℕ → Record
changed u req status now = record u {
  status = status;
  display_name = given_or req.display_name u.display_name;
  email = given_or req.email u.email;
  phone = given_or req.phone u.phone;
  updated_at = now;
}

module _ (h : UsersHandler) (r : Request UpdateRequest) (actor : User) where
  -- `update` once the request is checked. `toResponse(*out)` panics where the row is gone.
  unfoldable pub store_update : Record → Option (List String) → Handler Store Body (Response Body)
  store_update u roles = do
    out ← database (update_record u roles)
    write_entry h.audit r.origin actor.id actor.username (update_action roles) "" "success" ""
    u' ← require panic out
    pure (json 200 (item u'))

  unfoldable pub update : Handler Store Body (Response Body)
  update = do
    u ← load h r
    req ← require (reply (error 400 "invalid json")) r.body
    status ← check_status actor u req.status
    roles ← check_roles req.ops_roles
    store_update (changed u req status r.now) roles

module _ {Q : Type 0} (h : UsersHandler) (r : Request Q) (actor : User) where
  unfoldable pub remove : Handler Store Body (Response Body)
  unfolding path_id
  remove = do
    id ← path_id h r
    guard (not (eqb actor.id id)) (reply (error 400 "Cannot delete your own account"))
    guard h.store (reply (error 503 "database is not configured"))
    outcome ← attempt (delete id)
    _ ← deleted outcome
    write_entry h.audit r.origin actor.id actor.username "user_delete" "" "success" ""
    pure no_content

-- `passwordResetRequest`
pub record PasswordResetRequest : Type 0 where
  pub new_password : String

module _ (c : Crypto) (h : UsersHandler) (r : Request PasswordResetRequest) (actor : User) where
  unfoldable pub reset_password : Handler Store Body (Response Body)
  unfolding path_id bad_length
  reset_password = do
    id ← path_id h r
    guard h.store (reply (error 503 "database is not configured"))
    req ← require (reply (error 400 "invalid json")) r.body
    guard (not (bad_length req.new_password))
        (reply (error 400 "new_password must be 8-128 characters"))
    existing ← database (get_record id)
    _ ← require (reply (error 404 "User not found")) existing
    hash ← require (reply (error 500 "hash error")) (hash_password c r.salt req.new_password)
    _ ← database (reset_hash id hash r.now)
    write_entry h.audit r.origin actor.id actor.username "user_password_reset" "" "success" ""
    pure (json 200 (message "Password reset"))
