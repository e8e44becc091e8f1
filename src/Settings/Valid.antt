-- ===== src/Settings/Valid.antt =====
-- internal/settings/handler.go: the request of `put`, and `validateUpdate`.
use Prim.Native.String
use Prim.Native.String.{count}
use osspilot_ops_api.Common.{
  ℕ, ltb, String, Bool, true, false, ◌&&◌, ◌||◌, Option, none, some, List,
}
use osspilot_ops_api.Common.Int.{ℤ, pos, negsuc}
use osspilot_ops_api.Common.Text.{trim_space}
use osspilot_ops_api.Schema.Settings.{SettingRow}
use osspilot_ops_api.Settings.Rows.{pick_int, pick_bool}

-- `updateRequest`
pub record UpdateSettings : Type 0 where
  pub s3_endpoint : Option String
  pub rgw_access_key : Option String
  pub rgw_secret_key : Option String
  pub default_upload_presign_expires : Option ℤ
  pub default_download_presign_expires : Option ℤ
  pub max_upload_bytes : Option ℤ
  pub audit_enabled : Option Bool
  pub office_url : Option String
  pub download_cdn_url : Option String
  pub preview_cdn_url : Option String
  pub object_http_domain : Option String
  pub object_https_domain : Option String
  pub ceph_mgmt_api_url : Option String
  pub tenant_login_logo_text : Option String
  pub tenant_login_title : Option String
  pub tenant_login_subtitle : Option String
  pub trash_retention_days : Option ℤ
  pub trash_cleanup_enabled : Option Bool
  pub lifecycle_cleanup_enabled : Option Bool
  pub version_retention_days : Option ℤ
  pub version_cleanup_enabled : Option Bool
  pub multipart_stale_days : Option ℤ
  pub multipart_cleanup_enabled : Option Bool

-- n < k
abbrev pub int_below : ℕ → ℤ → Bool
int_below k (pos n) = ltb n k
int_below k (negsuc n) = true

-- k < n
abbrev pub int_above : ℕ → ℤ → Bool
int_above k (pos n) = ltb k n
int_above k (negsuc n) = false

abbrev pub out_of : ℕ → ℕ → ℤ → Bool
out_of low high n = int_below low n || int_above high n

-- `req.X != nil && test(*req.X)`
abbrev pub given : {A : Type 0} → (A → Bool) → Option A → Bool
given test none = false
given test (some a) = test a

-- The value of the request, else that which is stored
abbrev pub chosen : {A : Type 0} → Option A → A → A
chosen none a = a
chosen (some b) a = b

-- `if bad { return errors.New(…) }` before the rest; `none` is the error nil.
abbrev pub check : Bool → String → Option String → Option String
check true message rest = some message
check false message rest = rest

abbrev pub logo_too_long : String → Bool
logo_too_long s = ltb 8 (count (trim_space s))

abbrev pub max_days : ℕ
max_days = 3650

-- The tests of a number of days and of the cleanup that it is for, with what is stored of both
abbrev pub check_cleanup :
    String → String → Option ℤ → Option Bool → ℤ → Bool → Option String → Option String
check_cleanup key name days on stored_days stored_on rest =
    check (given (out_of 0 max_days) days) (String.◌++◌ key " must be between 0 and 3650") (
      check (chosen on stored_on && int_below 1 (chosen days stored_days))
        (String.◌++◌ key
          (String.◌++◌ " must be at least 1 when " (String.◌++◌ name " cleanup is enabled")))
        rest)

abbrev pub default_multipart_stale : ℤ
default_multipart_stale = pos 7

-- `validateUpdate`
unfoldable pub validate_update :
    (String → String) → UpdateSettings → List SettingRow → Option String
validate_update to_lower req rows =
    check (given (out_of 600 1800) req.default_upload_presign_expires)
      "default_upload_presign_expires must be between 600 and 1800"
      (check (given (out_of 300 600) req.default_download_presign_expires)
        "default_download_presign_expires must be between 300 and 600"
        (check (given (int_below 1) req.max_upload_bytes) "max_upload_bytes must be positive" (
          check (given logo_too_long req.tenant_login_logo_text)
            "tenant_login_logo_text must be at most 8 characters"
            (check_cleanup "trash_retention_days" "trash" req.trash_retention_days
              req.trash_cleanup_enabled (pick_int rows "trash_retention_days" (pos 0))
              (pick_bool to_lower rows "trash_cleanup_enabled" false)
              (check_cleanup "version_retention_days" "version" req.version_retention_days
                req.version_cleanup_enabled (pick_int rows "version_retention_days" (pos 0))
                (pick_bool to_lower rows "version_cleanup_enabled" false)
                (check_cleanup "multipart_stale_days" "multipart" req.multipart_stale_days
                  req.multipart_cleanup_enabled
                  (pick_int rows "multipart_stale_days" default_multipart_stale)
                  (pick_bool to_lower rows "multipart_cleanup_enabled" false) none))))))
