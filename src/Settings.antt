-- ===== src/Settings.antt =====
-- internal/settings: the settings of the system, which `put` stores and sends to the tenant API.
pub mod Rows
pub mod Valid
pub mod Public
pub mod Fields
pub mod Values
pub mod Effect
pub mod Put
pub mod Saving
pub mod Cleanup
pub mod Secrets
pub mod Ranges
pub mod Puts
pub mod Tests
use osspilot_ops_api.Common.{
  ℕ, eqb, String, Bool, true, false, not, ◌&&◌, ◌||◌, Option, none, some, List, [], ◌∷◌, ◌==◌,
  if◌then◌else◌,
}
use osspilot_ops_api.Common.Text.{trim_space}
use osspilot_ops_api.Common.Decimal.{format_ℕ, format_int}
use osspilot_ops_api.Action.{Result, ok, err, Action, attempt, ◌>>=◌, ◌>>◌, pure, guard, require}
use osspilot_ops_api.Database.{DbError}
use osspilot_ops_api.Http.{Response, error, json, Exit, reply, Handler, refuse, database}
use osspilot_ops_api.Schema.{Store}
use osspilot_ops_api.Schema.Settings.{SettingRow}
use osspilot_ops_api.Auth.{Request}
use osspilot_ops_api.Auth.Accounts.{User}
use osspilot_ops_api.Audit.Actor.{write_for}
use osspilot_ops_api.Regions.Rows.{Region, list_regions}
use osspilot_ops_api.Project.{Network, Client, put_settings}
use osspilot_ops_api.Project.World.{World, on_db, on_remote}
use Rows.{Fallbacks, load, pick}
use Valid.{UpdateSettings, validate_update}
use Public.{PublicSettings, public_of, bool_str}
use Fields.{fields, write_fields}

-- `settings.Handler`: which stores it has, its client of the tenant API, and the libraries
pub record SettingsHandler (R : Type 0) : Type 0 where
  pub store : Bool
  pub regions : Bool
  pub log : Bool
  pub fallbacks : Fallbacks
  pub project : Option Client
  pub net : Network R
  pub to_lower : String → String

pub record Runtime : Type 0 where
  pub s3_endpoint : String
  pub rgw_access_key : String
  pub rgw_secret_key : String
  pub ceph_mgmt_api_url : String

abbrev pub TenantValues : Type 0
TenantValues = List (String × String)

-- `settings[key] = value`
unfoldable pub assign : String → String → TenantValues → TenantValues
assign key value [] = (key, value) ∷ []
assign key value ((k, v) ∷ rest) =
    let later = assign key value rest in if k == key then (key, value) ∷ rest else (k, v) ∷ later

-- `settings[key]`, which is "" where there is none
unfoldable pub entry_at : String → TenantValues → String
entry_at key [] = ""
entry_at key ((k, v) ∷ rest) = let later = entry_at key rest in if k == key then v else later

abbrev or_empty : Option String → String
or_empty none = ""
or_empty (some v) = v

abbrev trimmed_or_empty : Option String → String
trimmed_or_empty none = ""
trimmed_or_empty (some v) = trim_space v

-- The map of `projectTenant` before the region and the runtime settings
unfoldable pub tenant_values : PublicSettings → TenantValues
tenant_values out =
    ("tenant_login_logo_text", out.tenant_login_logo_text)
    ∷ ("tenant_login_title", out.tenant_login_title)
    ∷ ("tenant_login_subtitle", out.tenant_login_subtitle)
    ∷ ("trash_retention_days", format_int out.trash_retention_days)
    ∷ ("trash_cleanup_enabled", bool_str out.trash_cleanup_enabled)
    ∷ ("version_retention_days", format_int out.version_retention_days)
    ∷ ("version_cleanup_enabled", bool_str out.version_cleanup_enabled)
    ∷ ("multipart_stale_days", format_int out.multipart_stale_days)
    ∷ ("multipart_cleanup_enabled", bool_str out.multipart_cleanup_enabled)
    ∷ ("max_upload_bytes", format_int out.max_upload_bytes)
    ∷ ("default_upload_presign_expires", format_int out.default_upload_presign_expires)
    ∷ ("office_url", trimmed_or_empty out.office_url)
    ∷ ("download_cdn_url", or_empty out.download_cdn_url)
    ∷ ("preview_cdn_url", or_empty out.preview_cdn_url)
    ∷ ("object_http_domain", or_empty out.object_http_domain)
    ∷ ("object_https_domain", or_empty out.object_https_domain)
    ∷ []

-- The loop over the regions, which ends at the first that is the default and active
unfoldable pub add_region : List Region → TenantValues → TenantValues
add_region [] values = values
add_region (reg ∷ regs) values =
    let later = add_region regs values in
    if reg.row.is_default && reg.row.status == "active"
    then assign "s3_endpoint" reg.row.s3_endpoint (
        assign "storage_region_name" reg.row.name (
          assign "storage_region_code" reg.row.code
            (assign "storage_region_id" (format_ℕ reg.row.id) values)))
    else later

abbrev set_if : Bool → String → String → TenantValues → TenantValues
set_if test key value values = if test then assign key value values else values

unfoldable pub add_runtime : Runtime → TenantValues → TenantValues
unfolding assign entry_at
add_runtime rt values = set_if (not (rt.rgw_secret_key == "")) "rgw_secret_key" rt.rgw_secret_key (
    set_if (not (rt.rgw_access_key == "")) "rgw_access_key" rt.rgw_access_key (
      set_if (entry_at "s3_endpoint" values == "" && not (rt.s3_endpoint == "")) "s3_endpoint"
        rt.s3_endpoint values))

abbrev pub with_regions : Result DbError (List Region) → TenantValues → TenantValues
with_regions (err e) values = values
with_regions (ok regs) values = add_region regs values

abbrev pub with_runtime : Result DbError Runtime → TenantValues → TenantValues
with_runtime (err e) values = values
with_runtime (ok rt) values = add_runtime rt values

module _ {R : Type 0} (h : SettingsHandler R) where
  -- `rows := map[string]row{}` and the rows of the store, where there is one
  unfoldable pub loaded : Action Store DbError (List SettingRow)
  loaded = if h.store then load else pure []

  -- `Runtime`
  unfoldable pub runtime : Action Store DbError Runtime
  runtime = do
    rows ← loaded
    pure (record {
      s3_endpoint = pick rows "s3_endpoint" h.fallbacks.s3_endpoint;
      rgw_access_key = pick rows "rgw_access_key" h.fallbacks.rgw_access_key;
      rgw_secret_key = pick rows "rgw_secret_key" h.fallbacks.rgw_secret_key;
      ceph_mgmt_api_url = pick rows "ceph_mgmt_api_url" h.fallbacks.ceph_mgmt_api_url;
    })

  -- `public`
  unfoldable pub public : Action Store DbError PublicSettings
  public = do rows ← loaded; pure (public_of h.to_lower h.fallbacks rows)

  -- `h.regions.List`, where there is a store of regions
  abbrev pub listed : Action Store DbError (List Region)
  listed = if h.regions then list_regions else pure []

  -- `projectTenant` with a client; a failure of the tenant API is only logged.
  unfoldable pub project_to : Client → PublicSettings → Handler (World R) PublicSettings Unit
  project_to c out = do
    regs ← attempt (on_db listed)
    rt ← attempt (on_db runtime)
    attempt (
        on_remote
          (put_settings h.net (some c) (with_runtime rt (with_regions regs (tenant_values out)))))
    pure tt

  -- `projectTenant`
  unfoldable pub project_tenant :
      Option Client → PublicSettings → Handler (World R) PublicSettings Unit
  project_tenant none out = pure tt
  project_tenant (some c) out = project_to c out

  -- `get`
  unfoldable pub get : Handler (World R) PublicSettings (Response PublicSettings)
  get = do out ← on_db (database public); project_tenant h.project out; pure (json 200 out)

  abbrev pub accept : Option String → Handler Store PublicSettings Unit
  accept none = pure tt
  accept (some message) = refuse 422 message

  module _ (r : Request UpdateSettings) (user : Option User) where
    -- `put` before the writes
    unfoldable pub read_update : Handler Store PublicSettings UpdateSettings
    read_update = do
      guard h.store (reply (error 503 "database is not configured"))
      req ← require (reply (error 400 "invalid json")) r.body
      rows ← database load
      accept (validate_update h.to_lower req rows)
      pure req

    -- `put` after the writes
    unfoldable pub answer_update : ℕ → Handler (World R) PublicSettings (Response PublicSettings)
    answer_update changed = do
      guard (not (eqb changed 0)) (reply (error 400 "No fields to update"))
      out ← on_db (database public)
      project_tenant h.project out
      on_db (write_for h.log r.origin user "update_system_settings" "" "success" "")
      pure (json 200 out)

    unfoldable pub put : Handler (World R) PublicSettings (Response PublicSettings)
    put = do
      req ← on_db read_update
      changed ← on_db (database (write_fields r.now (fields req)))
      answer_update changed
