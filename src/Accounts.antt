-- ===== src/Accounts.antt =====
-- internal/accounts/handler.go: the management of tenant accounts. Each change is written to the
-- database and sent to the tenant API.
pub mod Rows
pub mod Lookup
pub mod Effects
pub mod Tests
use osspilot_ops_api.Common.{
  ℕ, String, Bool, true, false, not, ◌&&◌, ◌||◌, Option, none, some, List, length, ◌==◌,
  if◌then◌else◌,
}
use osspilot_ops_api.Common.Int.{ℤ, pos, negsuc}
use osspilot_ops_api.Common.Text.{trim_space}
use osspilot_ops_api.Common.Decimal.{parse_id}
use osspilot_ops_api.Action.{
  Result, ok, err, Action, attempt, ◌>>=◌, ◌>>◌, pure, guard, require, stop,
}
use osspilot_ops_api.Database.{DbError, no_rows, unique_violation, query}
use osspilot_ops_api.Http.{
  Response, error, json, no_content, Exit, reply, panic, Handler, refuse, database,
}
use osspilot_ops_api.Schema.{Store}
use osspilot_ops_api.Schema.Tenants.{AccountRow}
use osspilot_ops_api.Crypto.{Crypto}
use osspilot_ops_api.Audit.Actor.{write_for}
use osspilot_ops_api.Auth.{Request}
use osspilot_ops_api.Auth.Accounts.{User}
use osspilot_ops_api.Auth.Session.{hash_password, bad_length, check_create_password}
use osspilot_ops_api.Regions.Rows.{Region, get_region}
use osspilot_ops_api.Project
use osspilot_ops_api.Project.{Network, Client, upsert_account, delete_account}
use osspilot_ops_api.Project.World.{World, on_db, on_remote}
use Rows.{
  Account, AccountRegion, list_accounts, get_account, insert_account, update_account, secret,
  update_account_password, remove_account,
}

-- `accounts.Handler`: whether it has its stores and an audit log, and its client of the tenant API
pub record AccountsHandler : Type 0 where
  pub store : Bool
  pub regions : Bool
  pub audit : Bool
  pub project : Option Client

pub record CreateAccount : Type 0 where
  pub username : String
  pub password : String
  pub display_name : Option String
  pub email : Option String
  pub phone : Option String
  pub quota_bytes : Option ℤ
  pub object_limit : Option ℤ
  pub daily_upload_bytes : Option ℤ
  pub bucket_limit : Option ℤ
  pub storage_region_id : Option ℤ
  pub must_change_password : Option Bool
  pub confirm_password : String

-- A `json.RawMessage` as `optInt64` reads it
pub data RawInt : Type 0 where
  absent null malformed : RawInt
  number : ℤ → RawInt

pub record UpdateAccount : Type 0 where
  pub display_name : Option String
  pub email : Option String
  pub phone : Option String
  pub status : Option String
  pub quota_bytes : RawInt
  pub object_limit : RawInt
  pub daily_upload_bytes : RawInt
  pub bucket_limit : RawInt
  pub storage_region_id : RawInt

-- `passwordResetRequest`
pub record ResetAccount : Type 0 where
  pub new_password : String

-- `toResponse` is left to the encoder, which formats the times.
pub data AccountBody : Type 0 where
  account_items : List Account → ℕ → AccountBody
  account_item : Account → AccountBody
  account_message : String → AccountBody

-- `boolOr`
abbrev pub bool_or : Option Bool → Bool → Bool
bool_or none fallback = fallback
bool_or (some v) fallback = v

-- `emptyToNil`
unfoldable pub empty_to_nil : Option String → Option String
empty_to_nil none = none
empty_to_nil (some s) = let t = trim_space s in if t == "" then none else some t

abbrev pub given_or : Option String → Option String → Option String
given_or none old = old
given_or (some s) old = empty_to_nil (some s)

-- `optInt64`: the outer `Option` says whether the field is set.
unfoldable pub opt_int64 : RawInt → Result Unit (Option (Option ℤ))
opt_int64 absent = ok none
opt_int64 null = ok (some none)
opt_int64 (number n) = ok (some (some n))
opt_int64 malformed = err tt

-- `regions.Store.GetByID` at an `int64`: no row has a negative id.
unfoldable pub region_at : ℤ → Action Store DbError (Option Region)
region_at (pos n) = get_region n
region_at (negsuc n) = query (λ t. ok none)

-- The end of `checkRegion`, with the id of the region
unfoldable pub active_region : Result DbError (Option Region) → Action Store String (Option ℕ)
active_region (err e) = stop "database error"
active_region (ok none) = stop "Storage region not found"
active_region (ok (some reg)) =
    if reg.row.status == "active"
    then pure (some reg.row.id)
    else stop "Storage region is not active"

-- `checkRegion`; `regions` says whether there is a store of the regions.
unfoldable pub check_region : Bool → Option ℤ → Action Store String (Option ℕ)
check_region regions none = pure none
check_region false (some id) = stop "Storage region not found"
check_region true (some id) = do found ← attempt (region_at id); active_region found

abbrev or_422 : {A : Type 0} → Result String A → Handler Store AccountBody A
or_422 (ok a) = pure a
or_422 (err detail) = refuse 422 detail

-- `if err := h.checkRegion(…); err != nil { httpx.Error(w, http.StatusUnprocessableEntity, …) }`
unfoldable pub checked_region : Bool → Option ℤ → Handler Store AccountBody (Option ℕ)
checked_region regions id = do outcome ← attempt (check_region regions id); or_422 outcome

-- `ErrConflict` is a unique violation.
abbrev pub account_inserted : Result DbError (Option Account) → Handler Store AccountBody Account
account_inserted (ok (some u)) = pure u
account_inserted (ok none) = stop panic
account_inserted (err unique_violation) = refuse 409 "Username already exists"
account_inserted (err _) = refuse 500 "database error"

-- `errors.Is(err, pgx.ErrNoRows)`
abbrev pub account_removed : Result DbError Unit → Handler Store AccountBody Unit
account_removed (ok _) = pure tt
account_removed (err no_rows) = refuse 404 "User not found"
account_removed (err _) = refuse 500 "database error"

-- The row of `Insert`, and the id that the table gives it
abbrev pub new_account : CreateAccount → String → String → Option ℕ → ℕ → ℕ → AccountRow
new_account req username hash region_id at id = record {
  id = id;
  username = username;
  password_hash = hash;
  display_name = empty_to_nil req.display_name;
  email = empty_to_nil req.email;
  phone = empty_to_nil req.phone;
  status = "active";
  quota_bytes = req.quota_bytes;
  object_limit = req.object_limit;
  daily_upload_bytes = req.daily_upload_bytes;
  bucket_limit = req.bucket_limit;
  storage_region_id = region_id;
  must_change_password = bool_or req.must_change_password true;
  last_login_at = none;
  created_at = at;
  updated_at = at;
}

abbrev pub region_text : Option AccountRegion → (AccountRegion → String) → Option String
region_text none f = none
region_text (some r) f = some (f r)

-- The literal `project.Account{…}` of `pushAccount`
abbrev pub projection_of : Account → String → Option Bool → Project.Account
projection_of u hash must = record {
  username = u.row.username;
  password_hash = hash;
  display_name = u.row.display_name;
  email = u.row.email;
  phone = u.row.phone;
  status = u.row.status;
  must_change_password = must;
  quota_bytes = u.row.quota_bytes;
  object_limit = u.row.object_limit;
  daily_upload_bytes = u.row.daily_upload_bytes;
  storage_region_id = u.row.storage_region_id;
  storage_region_code = region_text u.storage_region (λ r. r.code);
  storage_region_name = region_text u.storage_region (λ r. r.name);
  s3_endpoint = region_text u.storage_region (λ r. r.s3_endpoint);
  s3_region_name = region_text u.storage_region (λ r. r.s3_region_name);
}

module _ {S E A : Type 0} where
  -- `if err != nil { httpx.Error(w, http.StatusBadGateway, "tenant projection failed"); return }`
  abbrev or_502 : Result E A → Handler S AccountBody A
  or_502 (ok a) s = (ok a, s)
  or_502 (err e) s = (err (reply (error 502 "tenant projection failed")), s)

  abbrev pub projected : Action S E A → Handler S AccountBody A
  projected m s = or_502 (m s).0 (m s).1

-- `if h.store == nil { … }`
unfoldable pub with_store : AccountsHandler → Handler Store AccountBody Unit
with_store h = guard h.store (reply (error 503 "database is not configured"))

-- `pathID`
unfoldable pub path_id : {Q : Type 0} → Request Q → Handler Store AccountBody ℕ
path_id r = require (reply (error 400 "invalid user_id")) (parse_id (r.path_value "user_id"))

-- `load`
unfoldable pub load : {Q : Type 0} → AccountsHandler → Request Q → Handler Store AccountBody Account
load h r = do
  id ← path_id r
  with_store h
  found ← database (get_account id)
  require (reply (error 404 "User not found")) found

-- `if v, set, err := optInt64(…); err != nil { … } else if set { … }`
abbrev pub given_int :
    String → Option ℤ → Result Unit (Option (Option ℤ)) → Handler Store AccountBody (Option ℤ)
given_int name old (err _) = refuse 400 name
given_int name old (ok none) = pure old
given_int name old (ok (some v)) = pure v

-- The same for the region, which is checked where it is set
abbrev pub given_region :
    Bool → Option ℕ → Result Unit (Option (Option ℤ)) → Handler Store AccountBody (Option ℕ)
given_region regions old (err _) = refuse 400 "invalid storage_region_id"
given_region regions old (ok none) = pure old
given_region regions old (ok (some v)) = checked_region regions v

unfoldable pub given_status : String → Option String → Handler Store AccountBody String
given_status old none = pure old
given_status old (some status) = do
  guard (status == "active" || status == "disabled")
      (reply (error 400 "Invalid status; expected one of: active, disabled"))
  pure status

-- The record with the fields of the request
unfoldable pub edit_account :
    Bool → ℕ → UpdateAccount → AccountRow → Handler Store AccountBody AccountRow
edit_account regions now req u = do
  status ← given_status u.status req.status
  quota ← given_int "invalid quota_bytes" u.quota_bytes (opt_int64 req.quota_bytes)
  objects ← given_int "invalid object_limit" u.object_limit (opt_int64 req.object_limit)
  daily ←
      given_int "invalid daily_upload_bytes" u.daily_upload_bytes (opt_int64 req.daily_upload_bytes)
  buckets ← given_int "invalid bucket_limit" u.bucket_limit (opt_int64 req.bucket_limit)
  region_id ← given_region regions u.storage_region_id (opt_int64 req.storage_region_id)
  pure (record u {
    display_name = given_or req.display_name u.display_name;
    email = given_or req.email u.email;
    phone = given_or req.phone u.phone;
    status = status;
    quota_bytes = quota;
    object_limit = objects;
    daily_upload_bytes = daily;
    bucket_limit = buckets;
    storage_region_id = region_id;
    updated_at = now;
  })

module _ (h : AccountsHandler) {Q : Type 0} (r : Request Q) where
  unfoldable pub list : Handler Store AccountBody (Response AccountBody)
  list = do
    with_store h
    items ← database list_accounts
    pure (json 200 (account_items items (length items)))

  unfoldable pub get : Handler Store AccountBody (Response AccountBody)
  get = do u ← load h r; pure (json 200 (account_item u))

-- `create` up to the call of `Insert`, with the row that it stores
unfoldable pub accept_account :
    Crypto → AccountsHandler → Request CreateAccount → Handler Store AccountBody (ℕ → AccountRow)
accept_account c h r = do
  with_store h
  req ← require (reply (error 400 "invalid json")) r.body
  let username = trim_space req.username
  guard (not (username == "")) (reply (error 400 "username is required"))
  let problem =
      check_create_password req.password req.confirm_password
        (bool_or req.must_change_password true)
  guard (problem == "") (reply (error 400 problem))
  region_id ← checked_region h.regions req.storage_region_id
  hash ← require (reply (error 500 "hash error")) (hash_password c r.salt req.password)
  pure (new_account req username hash region_id r.now)

-- `h.store.Insert` of `create` and the answers to its errors
unfoldable pub store_account : (ℕ → AccountRow) → Handler Store AccountBody Account
store_account row = do outcome ← attempt (insert_account row); account_inserted outcome

module _ {R : Type 0} (net : Network R) (h : AccountsHandler) where
  -- `pushAccount`, and the answer to its error
  unfoldable pub push_account : Account → Option Bool → Handler (World R) AccountBody Unit
  push_account u must = do
    stored ← projected (on_db (secret u.row.id))
    projected (on_remote (upsert_account net h.project (projection_of u stored.0 must)))

  module _ (r : Request CreateAccount) (c : Crypto) (user : Option User) where
    unfoldable pub create : Handler (World R) AccountBody (Response AccountBody)
    create = do
      row ← on_db (accept_account c h r)
      u ← on_db (store_account row)
      push_account u (some (row 0).must_change_password)
      on_db (write_for h.audit r.origin user "create_tenant" "" "success" "")
      pure (json 201 (account_item u))

  module _ (r : Request UpdateAccount) (user : Option User) where
    -- `update`. `*out` panics where the row is gone.
    unfoldable pub update : Handler (World R) AccountBody (Response AccountBody)
    update = do
      u ← on_db (load h r)
      req ← require (reply (error 400 "invalid json")) r.body
      row ← on_db (edit_account h.regions r.now req u.row)
      written ← on_db (database (update_account row))
      out ← require panic written
      push_account out none
      on_db (write_for h.audit r.origin user "update_tenant" "" "success" "")
      pure (json 200 (account_item out))

  module _ {Q : Type 0} (r : Request Q) (user : Option User) where
    unfoldable pub remove : Handler (World R) AccountBody (Response AccountBody)
    remove = do
      u ← on_db (load h r)
      projected (on_remote (delete_account net h.project u.row.username))
      outcome ← attempt (on_db (remove_account u.row.id))
      on_db (account_removed outcome)
      on_db (write_for h.audit r.origin user "delete_tenant" "" "success" "")
      pure no_content

  module _ (r : Request ResetAccount) (c : Crypto) (user : Option User) where
    -- `resetPassword`
    unfoldable pub reset_password : Handler (World R) AccountBody (Response AccountBody)
    reset_password = do
      id ← on_db (path_id r)
      on_db (with_store h)
      req ← require (reply (error 400 "invalid json")) r.body
      guard (not (bad_length req.new_password))
          (reply (error 400 "new_password must be 8-128 characters"))
      found ← on_db (database (get_account id))
      existing ← require (reply (error 404 "User not found")) found
      hash ← require (reply (error 500 "hash error")) (hash_password c r.salt req.new_password)
      on_db (database (update_account_password id hash r.now))
      push_account existing (some true)
      on_db (write_for h.audit r.origin user "user_password_reset" "" "success" "")
      pure (json 200 (account_message "Password reset"))
