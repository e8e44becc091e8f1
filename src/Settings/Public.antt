-- ===== src/Settings/Public.antt =====
-- internal/settings/handler.go: what the settings are to clients and to the tenant API.
use Prim.Native.Char.{len_utf8}
use Prim.Native.String
use Prim.Native.String.{len, [], ◌∷◌}
use osspilot_ops_api.Common.{
  ℕ, zero, suc, leb, eqb, ◌-◌, ◌*◌, String, Bool, true, false, not, ◌==◌, Option, none, some, List,
  if◌then◌else◌,
}
use osspilot_ops_api.Common.Int.{ℤ, pos}
use osspilot_ops_api.Schema.Settings.{SettingRow}
use osspilot_ops_api.Settings.Rows.{Fallbacks, pick, pick_ptr, pick_int, pick_bool, latest}
use osspilot_ops_api.Settings.Valid.{default_multipart_stale}

abbrev pub masked : String
masked = "********"

abbrev default_upload_expires : ℤ
default_upload_expires = pos 1800

abbrev default_download_expires : ℤ
default_download_expires = pos 600

abbrev default_max_upload_bytes : ℤ
default_max_upload_bytes = pos (5 * 1024 * 1024 * 1024)

abbrev default_logo : String
default_logo = "O"

abbrev default_title : String
default_title = "OssPilot 对象存储"

abbrev default_subtitle : String
default_subtitle = "租户控制台"

-- `publicSettings`; the time is left to the encoder.
pub record PublicSettings : Type 0 where
  pub s3_endpoint : Option String
  pub rgw_access_key : Option String
  pub rgw_secret_key : Option String
  pub rgw_access_key_configured : Bool
  pub rgw_secret_key_configured : Bool
  pub default_upload_presign_expires : ℤ
  pub default_download_presign_expires : ℤ
  pub max_upload_bytes : ℤ
  pub audit_enabled : Bool
  pub office_url : Option String
  pub download_cdn_url : Option String
  pub preview_cdn_url : Option String
  pub object_http_domain : Option String
  pub object_https_domain : Option String
  pub ceph_mgmt_api_url : Option String
  pub tenant_login_logo_text : String
  pub tenant_login_title : String
  pub tenant_login_subtitle : String
  pub trash_retention_days : ℤ
  pub trash_cleanup_enabled : Bool
  pub lifecycle_cleanup_enabled : Bool
  pub version_retention_days : ℤ
  pub version_cleanup_enabled : Bool
  pub multipart_stale_days : ℤ
  pub multipart_cleanup_enabled : Bool
  pub updated_at : Option ℕ

-- So many copies of a text: `strings.Repeat`
unfoldable pub repeated : String → ℕ → String
repeated s zero = ""
repeated s (suc n) = String.◌++◌ s (repeated s n)

-- `v[n:]` by bytes. The bytes of a character that is cut are not UTF-8, and the encoder writes
-- U+FFFD for each.
unfoldable pub drop_bytes : ℕ → String → String
unfolding repeated
drop_bytes n [] = ""
drop_bytes n (◌∷◌ c s) =
    let rest = drop_bytes (n - len_utf8 c) s in
    if leb (len_utf8 c) n
    then rest
    else if eqb n 0
    then ◌∷◌ c s
    else String.◌++◌ (repeated "�" (len_utf8 c - n)) s

-- `maskAccess`
unfoldable pub mask_access : String → Option String
unfolding repeated drop_bytes
mask_access v =
    if v == ""
    then none
    else if leb (len v) 4
    then some masked
    else some (String.◌++◌ (repeated "*" (len v - 4)) (drop_bytes (len v - 4) v))

-- `maskSecret`
unfoldable pub mask_secret : String → Option String
mask_secret v = if v == "" then none else some masked

-- `boolStr`
abbrev pub bool_str : Bool → String
bool_str true = "true"
bool_str false = "false"

-- The end of `public`, from the rows
unfoldable pub public_of : (String → String) → Fallbacks → List SettingRow → PublicSettings
unfolding mask_access mask_secret
public_of to_lower fb rows =
    let ak = pick rows "rgw_access_key" fb.rgw_access_key in
    let sk = pick rows "rgw_secret_key" fb.rgw_secret_key in
    record {
      s3_endpoint = pick_ptr rows "s3_endpoint" fb.s3_endpoint;
      rgw_access_key = mask_access ak;
      rgw_secret_key = mask_secret sk;
      rgw_access_key_configured = not (ak == "");
      rgw_secret_key_configured = not (sk == "");
      default_upload_presign_expires =
          pick_int rows "default_upload_presign_expires" default_upload_expires;
      default_download_presign_expires =
          pick_int rows "default_download_presign_expires" default_download_expires;
      max_upload_bytes = pick_int rows "max_upload_bytes" default_max_upload_bytes;
      audit_enabled = pick_bool to_lower rows "audit_enabled" true;
      office_url = pick_ptr rows "office_url" fb.office_url;
      download_cdn_url = pick_ptr rows "download_cdn_url" fb.download_cdn_url;
      preview_cdn_url = pick_ptr rows "preview_cdn_url" fb.preview_cdn_url;
      object_http_domain = pick_ptr rows "object_http_domain" fb.object_http_domain;
      object_https_domain = pick_ptr rows "object_https_domain" fb.object_https_domain;
      ceph_mgmt_api_url = pick_ptr rows "ceph_mgmt_api_url" fb.ceph_mgmt_api_url;
      tenant_login_logo_text = pick rows "tenant_login_logo_text" default_logo;
      tenant_login_title = pick rows "tenant_login_title" default_title;
      tenant_login_subtitle = pick rows "tenant_login_subtitle" default_subtitle;
      trash_retention_days = pick_int rows "trash_retention_days" (pos 0);
      trash_cleanup_enabled = pick_bool to_lower rows "trash_cleanup_enabled" false;
      lifecycle_cleanup_enabled = pick_bool to_lower rows "lifecycle_cleanup_enabled" true;
      version_retention_days = pick_int rows "version_retention_days" (pos 0);
      version_cleanup_enabled = pick_bool to_lower rows "version_cleanup_enabled" false;
      multipart_stale_days = pick_int rows "multipart_stale_days" default_multipart_stale;
      multipart_cleanup_enabled = pick_bool to_lower rows "multipart_cleanup_enabled" false;
      updated_at = latest rows;
    }
