-- ===== src/Regions.antt =====
-- internal/regions: the storage regions. `to_lower` is `strings.ToLower`.
pub mod Rows
pub mod Deletion
pub mod Codes
mod Tests
use Prim.Native.String.{len}
use osspilot_ops_api.Common.{
  ℕ, ltb, String, Bool, true, false, not, ◌&&◌, ◌||◌, Option, none, some, List, length, ◌==◌,
  if◌then◌else◌,
}
use osspilot_ops_api.Common.Text.{trim_space}
use osspilot_ops_api.Common.Decimal.{parse_id}
use osspilot_ops_api.Action.{Result, ok, err, attempt, ◌>>=◌, ◌>>◌, pure, guard, require}
use osspilot_ops_api.Database.{DbError, unique_violation}
use osspilot_ops_api.Http.{
  Response, error, json, no_content, Exit, reply, panic, Handler, refuse, database,
}
use osspilot_ops_api.Schema.{Store}
use osspilot_ops_api.Schema.Regions.{RegionRow}
use osspilot_ops_api.Audit.{Origin, write_entry}
use osspilot_ops_api.Auth.{Request}
use osspilot_ops_api.Auth.Accounts.{User}
use Rows.{
  Region, DeleteError, no_region, default_region, bound_region, failed, list_regions, get_region,
  insert_region, update_region, delete_region,
}

-- `regions.Handler`: whether it has a store and an audit log.
pub record RegionsHandler : Type 0 where
  pub store : Bool
  pub audit : Bool

pub record CreateRegion : Type 0 where
  pub code : String
  pub name : String
  pub s3_endpoint : String
  pub s3_region_name : String
  pub is_default : Bool
  pub status : String

pub record UpdateRegion : Type 0 where
  pub name : Option String
  pub s3_endpoint : Option String
  pub s3_region_name : Option String
  pub is_default : Option Bool
  pub status : Option String

-- `toResponse` is left to the encoder, which formats the times.
pub data RegionBody : Type 0 where
  region_items : List Region → ℕ → RegionBody
  region_item : Region → RegionBody

-- `validStatus`
unfoldable pub valid_status : String → Bool
valid_status status = status == "active" || status == "disabled"

abbrev pub invalid_status : Exit RegionBody
invalid_status = reply (error 400 "Invalid status; expected one of: active, disabled")

-- `if x == "" { x = fallback }` after trimming
unfoldable pub or_default : String → String → String
or_default s fallback = let t = trim_space s in if t == "" then fallback else t

-- The two tests of `create` on the lengths of its fields, in bytes
unfoldable pub is_missing : String → String → String → Bool
is_missing code name endpoint = code == "" || name == "" || endpoint == ""

unfoldable pub is_too_long : String → String → String → String → Bool
is_too_long code name endpoint region_name =
    ltb 64 (len code) || ltb 128 (len name) || ltb 512 (len endpoint) || ltb 64 (len region_name)

-- `if user != nil { audit.Write(…) }`
unfoldable pub audit_region : Bool → Origin → Option User → String → Handler Store RegionBody Unit
audit_region log origin none action = pure tt
audit_region log origin (some u) action =
    write_entry log origin u.id u.username action "" "success" ""

module _ (h : RegionsHandler) where
  -- `if h.store == nil { … }`
  abbrev pub with_store : Handler Store RegionBody Unit
  with_store = guard h.store (reply (error 503 "database is not configured"))

  unfoldable pub list : Handler Store RegionBody (Response RegionBody)
  list = do
    with_store
    regions ← database list_regions
    pure (json 200 (region_items regions (length regions)))

-- `pathID`
unfoldable pub region_id : {Q : Type 0} → Request Q → Handler Store RegionBody ℕ
region_id r = require (reply (error 400 "invalid region_id")) (parse_id (r.path_value "region_id"))

-- `ErrConflict` is a unique violation.
abbrev pub region_inserted : String → Result DbError Region → Handler Store RegionBody Region
region_inserted code (ok r) = pure r
region_inserted code (err unique_violation) =
    refuse 409
      (Prim.Native.String.◌++◌ "Region code '" (Prim.Native.String.◌++◌ code "' already exists"))
region_inserted code (err _) = refuse 500 "database error"

-- The row that `create` passes to `Insert`, and the id that the table gives it
abbrev pub new_region : String → String → String → String → Bool → String → ℕ → ℕ → RegionRow
new_region code name endpoint region_name is_default status now id = record {
  id = id;
  code = code;
  name = name;
  s3_endpoint = endpoint;
  s3_region_name = region_name;
  is_default = is_default;
  status = status;
  created_at = now;
  updated_at = now;
}

module _ (h : RegionsHandler) (r : Request CreateRegion) (user : Option User) where
  -- `create` from the call of `Insert`
  unfoldable pub store_new :
      String → Bool → (ℕ → RegionRow) → Handler Store RegionBody (Response RegionBody)
  store_new code is_default row = do
    outcome ← attempt (insert_region is_default row)
    out ← region_inserted code outcome
    audit_region h.audit r.origin user "create_storage_region"
    pure (json 201 (region_item out))

module _ (to_lower : String → String) (h : RegionsHandler) (r : Request CreateRegion)
    (user : Option User) where
  unfoldable pub create : Handler Store RegionBody (Response RegionBody)
  create = do
    with_store h
    req ← require (reply (error 400 "invalid json")) r.body
    let code = to_lower (trim_space req.code)
    let name = trim_space req.name
    let endpoint = trim_space req.s3_endpoint
    let region_name = or_default req.s3_region_name "us-east-1"
    let status = or_default req.status "active"
    guard (not (is_missing code name endpoint))
        (reply (error 400 "code, name and s3_endpoint are required"))
    guard (not (is_too_long code name endpoint region_name)) (reply (error 400 "field too long"))
    guard (valid_status status) invalid_status
    store_new h r user code req.is_default
        (new_region code name endpoint region_name req.is_default status r.now)

-- A field that may not be empty, or its old value
unfoldable pub needed : Option String → String → String → Handler Store RegionBody String
needed none old message = pure old
needed (some s) old message = do
  guard (not (trim_space s == "")) (reply (error 400 message))
  pure (trim_space s)

abbrev pub new_region_name : Option String → String → String
new_region_name none old = old
new_region_name (some s) old = or_default s "us-east-1"

unfoldable pub new_status : Option String → String → Handler Store RegionBody String
new_status none old = pure old
new_status (some s) old = do guard (valid_status (trim_space s)) invalid_status; pure (trim_space s)

abbrev pub new_default : Option Bool → Bool → Bool
new_default none old = old
new_default (some b) old = b

abbrev pub absent : {A : Type 0} → Option A → Bool
absent none = true
absent (some a) = false

-- No field of the request is given
abbrev pub is_blank : UpdateRegion → Bool
is_blank req =
    absent req.name
    && absent req.s3_endpoint
    && absent req.s3_region_name
    && absent req.is_default
    && absent req.status

module _ (h : RegionsHandler) (r : Request UpdateRegion) (user : Option User) where
  -- `update` from the call of `Update`. `toResponse(*out)` panics where the row is gone.
  unfoldable pub store_region :
      RegionRow → Option Bool → Handler Store RegionBody (Response RegionBody)
  store_region row set_default = do
    out ← database (update_region row set_default)
    audit_region h.audit r.origin user "update_storage_region"
    u ← require panic out
    pure (json 200 (region_item u))

  -- `cur` with the fields of the request
  unfoldable pub edited : RegionRow → UpdateRegion → Handler Store RegionBody RegionRow
  edited cur req = do
    name ← needed req.name cur.name "name is required"
    endpoint ← needed req.s3_endpoint cur.s3_endpoint "s3_endpoint is required"
    status ← new_status req.status cur.status
    pure (record cur {
      name = name;
      s3_endpoint = endpoint;
      s3_region_name = new_region_name req.s3_region_name cur.s3_region_name;
      status = status;
      is_default = new_default req.is_default cur.is_default;
      updated_at = r.now;
    })

  unfoldable pub update : Handler Store RegionBody (Response RegionBody)
  update = do
    id ← region_id r
    with_store h
    found ← database (get_region id)
    cur ← require (reply (error 404 "Region not found")) found
    req ← require (reply (error 400 "invalid json")) r.body
    guard (not (is_blank req)) (reply (error 400 "No fields to update"))
    row ← edited cur.row req
    store_region row req.is_default

-- The answers to the errors of `Delete`
abbrev pub region_deleted : Result DeleteError Unit → Handler Store RegionBody Unit
region_deleted (ok _) = pure tt
region_deleted (err no_region) = refuse 404 "Region not found"
region_deleted (err default_region) =
    refuse 409 "Cannot delete the default region; assign another default first"
region_deleted (err bound_region) =
    refuse 409 "Region has bound accounts; reassign them before deleting"
region_deleted (err failed) = refuse 500 "database error"

module _ {Q : Type 0} (h : RegionsHandler) (r : Request Q) (user : Option User) where
  unfoldable pub remove : Handler Store RegionBody (Response RegionBody)
  remove = do
    id ← region_id r
    with_store h
    outcome ← attempt (delete_region id)
    _ ← region_deleted outcome
    audit_region h.audit r.origin user "delete_storage_region"
    pure no_content
