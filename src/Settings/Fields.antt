-- ===== src/Settings/Fields.antt =====
-- internal/settings/handler.go: the fields that `put` writes, one after the other.
use osspilot_ops_api.Common.{
  ℕ, suc, String, Bool, true, false, Option, none, some, List, [], ◌∷◌, ◌==◌, if◌then◌else◌,
}
use osspilot_ops_api.Common.Int.{ℤ}
use osspilot_ops_api.Common.Text.{trim_space}
use osspilot_ops_api.Common.Decimal.{format_int}
use osspilot_ops_api.Action.{Action, ◌>>=◌, ◌>>◌, pure}
use osspilot_ops_api.Database.{DbError}
use osspilot_ops_api.Schema.{Store}
use osspilot_ops_api.Settings.Rows.{upsert}
use osspilot_ops_api.Settings.Valid.{UpdateSettings}
use osspilot_ops_api.Settings.Public.{masked, bool_str}

-- One `if … { set(key, value, secret) }` of `put`: there is a value where the condition holds.
pub record Field : Type 0 where
  pub key : String
  pub value : Option String
  pub secret : Bool

abbrev pub trimmed : Option String → Option String
trimmed none = none
trimmed (some s) = some (trim_space s)

-- `req.X != nil && strings.TrimSpace(*req.X) != masked`
abbrev pub unmasked : Option String → Option String
unmasked none = none
unmasked (some s) = let t = trim_space s in if t == masked then none else some t

abbrev pub formatted : Option ℤ → Option String
formatted none = none
formatted (some n) = some (format_int n)

abbrev pub spelled : Option Bool → Option String
spelled none = none
spelled (some b) = some (bool_str b)

abbrev pub plain : String → Option String → Field
plain key value = record { key = key; value = value; secret = false }

abbrev pub hidden : String → Option String → Field
hidden key value = record { key = key; value = value; secret = true }

-- The `if`s of `put`, in their order
unfoldable pub fields : UpdateSettings → List Field
fields req =
    plain "s3_endpoint" (trimmed req.s3_endpoint)
    ∷ hidden "rgw_access_key" (unmasked req.rgw_access_key)
    ∷ hidden "rgw_secret_key" (unmasked req.rgw_secret_key)
    ∷ plain "default_upload_presign_expires" (formatted req.default_upload_presign_expires)
    ∷ plain "default_download_presign_expires" (formatted req.default_download_presign_expires)
    ∷ plain "max_upload_bytes" (formatted req.max_upload_bytes)
    ∷ plain "audit_enabled" (spelled req.audit_enabled)
    ∷ plain "office_url" (trimmed req.office_url)
    ∷ plain "download_cdn_url" (trimmed req.download_cdn_url)
    ∷ plain "preview_cdn_url" (trimmed req.preview_cdn_url)
    ∷ plain "object_http_domain" (trimmed req.object_http_domain)
    ∷ plain "object_https_domain" (trimmed req.object_https_domain)
    ∷ plain "ceph_mgmt_api_url" (trimmed req.ceph_mgmt_api_url)
    ∷ plain "tenant_login_logo_text" (trimmed req.tenant_login_logo_text)
    ∷ plain "tenant_login_title" (trimmed req.tenant_login_title)
    ∷ plain "tenant_login_subtitle" (trimmed req.tenant_login_subtitle)
    ∷ plain "trash_retention_days" (formatted req.trash_retention_days)
    ∷ plain "trash_cleanup_enabled" (spelled req.trash_cleanup_enabled)
    ∷ plain "lifecycle_cleanup_enabled" (spelled req.lifecycle_cleanup_enabled)
    ∷ plain "version_retention_days" (formatted req.version_retention_days)
    ∷ plain "version_cleanup_enabled" (spelled req.version_cleanup_enabled)
    ∷ plain "multipart_stale_days" (formatted req.multipart_stale_days)
    ∷ plain "multipart_cleanup_enabled" (spelled req.multipart_cleanup_enabled)
    ∷ []

abbrev pub write_value :
    ℕ → String → Bool → Option String → Action Store DbError ℕ → Action Store DbError ℕ
write_value now key secret none rest = rest
write_value now key secret (some v) rest = do upsert now key v secret; n ← rest; pure (suc n)

-- The writes of `put` one after the other, up to the first that fails, and `changed`
unfoldable pub write_fields : ℕ → List Field → Action Store DbError ℕ
write_fields now [] = pure 0
write_fields now (f ∷ fs) =
    let rest = write_fields now fs in write_value now f.key f.secret f.value rest
