-- ===== src/Settings/Ranges.antt =====
-- The ranges of the numbers that internal/settings stores.
use osspilot_ops_api.Common.{
  ℕ, ◌≤◌, String, ◌≡◌, refl, Bool, true, false, ◌&&◌, ◌||◌, Option, none, some, List, [], ◌∷◌, All,
  arith, if◌then◌else◌, ◌==◌, inl, inr, Bool-cases, eq_iff,
}
use mathlib.Core.Path.{subst}
use osspilot_ops_api.Common.Int.{ℤ, pos, negsuc}
use osspilot_ops_api.Common.Decimal.{format_int}
use osspilot_ops_api.Action.{Action}
use osspilot_ops_api.Action.Keeps.{Keeps, Keeps-bind, Keeps-pure}
use osspilot_ops_api.Database.{DbError}
use osspilot_ops_api.Database.Keeps.{OnTables, Keeps-exec}
use osspilot_ops_api.Schema.{Tables, Store}
use osspilot_ops_api.Schema.Settings.{SettingRow}
use osspilot_ops_api.Settings.Rows.{put_row, value_at, int_value, pick_int, pick_bool, upsert}
use osspilot_ops_api.Settings.Valid.{
  UpdateSettings, validate_update, given, chosen, out_of, max_days, logo_too_long, int_below,
  check_cleanup, default_multipart_stale,
}
use osspilot_ops_api.Settings.Fields.{
  Field, fields, formatted, trimmed, unmasked, spelled, write_value, write_fields,
}
use osspilot_ops_api.Settings.Cleanup.{int_value-format_ℕ, check-none}

-- The numbers with a range, and a number in it
abbrev pub limits : String → Option (ℕ × ℕ)
limits key =
    if key == "default_upload_presign_expires"
    then some (600, 1800)
    else if key == "default_download_presign_expires"
    then some (300, 600)
    else if key == "trash_retention_days"
        || key == "version_retention_days"
        || key == "multipart_stale_days"
    then some (0, 3650)
    else none

abbrev pub Within : Option (ℕ × ℕ) → String → Type 0
Within none v = Unit {0}
Within (some (low, high)) v = (default : ℤ) → out_of low high (int_value (some v) default) ≡ false

abbrev pub InRange : String → String → Type 0
InRange key v = Within (limits key) v

-- Every stored number with a range is in it.
pub record RangesHold (t : Tables) : Type 0 where
  pub all : All (λ (r : SettingRow). InRange r.key r.value) t.settings

put_row-InRange :
    (new : SettingRow) (rows : List SettingRow)
    → InRange new.key new.value
    → All (λ (r : SettingRow). InRange r.key r.value) rows
    → All (λ (r : SettingRow). InRange r.key r.value) (put_row new rows)
unfolding put_row
put_row-InRange new [] k h = (k, tt)
put_row-InRange new (r ∷ rows) k (g, h) = elim (Bool-cases (r.key == new.key)) [
  | inl same ↦ rw same (rw ((eq_iff r.key new.key).0 same) k, h)
  | inr other ↦ rw other (g, put_row-InRange new rows k h)
]

upsert-RangesHold :
    (now : ℕ) (key value : String) (secret : Bool)
    → InRange key value
    → Keeps (OnTables RangesHold) (upsert now key value secret)
unfolding upsert
upsert-RangesHold now key value secret k =
    Keeps-exec _ (λ t h. record { all = put_row-InRange _ t.settings k h.all })

abbrev pub Fits : String → Option String → Type 0
Fits key none = Unit {0}
Fits key (some v) = InRange key v

write_value-RangesHold :
    (now : ℕ) (key : String) (secret : Bool) (v : Option String) (rest : Action Store DbError ℕ)
    → Fits key v
    → Keeps (OnTables RangesHold) rest
    → Keeps (OnTables RangesHold) (write_value now key secret v rest)
write_value-RangesHold now key secret none rest f k = k
write_value-RangesHold now key secret (some v) rest f k =
    Keeps-bind _ _ (upsert-RangesHold now key v secret f) λ _. Keeps-bind _ _ k λ n. Keeps-pure _

pub write_fields-RangesHold :
    (now : ℕ) (fs : List Field)
    → All (λ (f : Field). Fits f.key f.value) fs
    → Keeps (OnTables RangesHold) (write_fields now fs)
unfolding write_fields
write_fields-RangesHold now [] h = Keeps-pure 0
write_fields-RangesHold now (f ∷ fs) (k, h) =
    write_value-RangesHold now f.key f.secret f.value (write_fields now fs) k
      (write_fields-RangesHold now fs h)

free : (key : String) (o : Option String) → limits key ≡ none → Fits key o
free key none e = tt
free key (some v) e = rw e tt

bounded :
    (key : String) (low high : ℕ) (o : Option ℤ)
    → limits key ≡ some (low, high)
    → high ≤ 3650
    → given (out_of low high) o ≡ false
    → Fits key (formatted o)
unfolding format_int
bounded key low high none e small h = tt
bounded key low high (some (pos n)) e small h =
    rw e λ default. rw (int_value-format_ℕ n default (ground (arith, h, small))) h
bounded key low high (some (negsuc n)) e small h = ground (arith, h)

check_cleanup-none :
    (key name : String) (days : Option ℤ) (on : Option Bool) (stored_days : ℤ) (stored_on : Bool)
    (rest : Option String)
    → check_cleanup key name days on stored_days stored_on rest ≡ none
    → (given (out_of 0 max_days) days ≡ false) × (rest ≡ none)
check_cleanup-none key name days on stored_days stored_on rest e =
    let (in_range, more) = check-none (given (out_of 0 max_days) days) _ _ e in
    (
      in_range,
      (check-none (chosen on stored_on && int_below 1 (chosen days stored_days)) _ _ more).1,
    )

-- What the checks let through is in range.
pub fields-Fits :
    (to_lower : String → String) (req : UpdateSettings) (rows : List SettingRow)
    → validate_update to_lower req rows ≡ none
    → All (λ (f : Field). Fits f.key f.value) (fields req)
unfolding validate_update fields
fields-Fits to_lower req rows e =
    let (upload, e1) =
      check-none (given (out_of 600 1800) req.default_upload_presign_expires) _ _ e in
    let (download, e2) =
      check-none (given (out_of 300 600) req.default_download_presign_expires) _ _ e1 in
    let (_, e3) = check-none (given (int_below 1) req.max_upload_bytes) _ _ e2 in
    let (_, e4) = check-none (given logo_too_long req.tenant_login_logo_text) _ _ e3 in
    let (trash, e5) =
      check_cleanup-none "trash_retention_days" "trash" req.trash_retention_days
        req.trash_cleanup_enabled (pick_int rows "trash_retention_days" (pos 0))
        (pick_bool to_lower rows "trash_cleanup_enabled" false) _ e4 in
    let (version, e6) =
      check_cleanup-none "version_retention_days" "version" req.version_retention_days
        req.version_cleanup_enabled (pick_int rows "version_retention_days" (pos 0))
        (pick_bool to_lower rows "version_cleanup_enabled" false) _ e5 in
    let (multipart, _) =
      check_cleanup-none "multipart_stale_days" "multipart" req.multipart_stale_days
        req.multipart_cleanup_enabled (pick_int rows "multipart_stale_days" default_multipart_stale)
        (pick_bool to_lower rows "multipart_cleanup_enabled" false) none e6 in
    (
      free "s3_endpoint" (trimmed req.s3_endpoint) refl,
      (
        free "rgw_access_key" (unmasked req.rgw_access_key) refl,
        (
          free "rgw_secret_key" (unmasked req.rgw_secret_key) refl,
          (
            bounded "default_upload_presign_expires" 600 1800 req.default_upload_presign_expires
                refl (omega arith) upload,
            (
              bounded "default_download_presign_expires" 300 600
                  req.default_download_presign_expires refl (omega arith) download,
              (
                free "max_upload_bytes" (formatted req.max_upload_bytes) refl,
                (
                  free "audit_enabled" (spelled req.audit_enabled) refl,
                  (
                    free "office_url" (trimmed req.office_url) refl,
                    (
                      free "download_cdn_url" (trimmed req.download_cdn_url) refl,
                      (
                        free "preview_cdn_url" (trimmed req.preview_cdn_url) refl,
                        (
                          free "object_http_domain" (trimmed req.object_http_domain) refl,
                          (
                            free "object_https_domain" (trimmed req.object_https_domain) refl,
                            (
                              free "ceph_mgmt_api_url" (trimmed req.ceph_mgmt_api_url) refl,
                              (
                                free "tenant_login_logo_text" (trimmed req.tenant_login_logo_text)
                                    refl,
                                (
                                  free "tenant_login_title" (trimmed req.tenant_login_title) refl,
                                  (
                                    free "tenant_login_subtitle" (trimmed req.tenant_login_subtitle)
                                        refl,
                                    (
                                      bounded "trash_retention_days" 0 3650 req.trash_retention_days
                                          refl (omega arith) trash,
                                      (
                                        free "trash_cleanup_enabled"
                                            (spelled req.trash_cleanup_enabled) refl,
                                        (
                                          free "lifecycle_cleanup_enabled"
                                              (spelled req.lifecycle_cleanup_enabled) refl,
                                          (
                                            bounded "version_retention_days" 0 3650
                                                req.version_retention_days refl (omega arith)
                                                version,
                                            (
                                              free "version_cleanup_enabled"
                                                  (spelled req.version_cleanup_enabled) refl,
                                              (
                                                bounded "multipart_stale_days" 0 3650
                                                    req.multipart_stale_days refl (omega arith)
                                                    multipart,
                                                (
                                                  free "multipart_cleanup_enabled"
                                                      (spelled req.multipart_cleanup_enabled) refl,
                                                  tt,
                                                ),
                                              ),
                                            ),
                                          ),
                                        ),
                                      ),
                                    ),
                                  ),
                                ),
                              ),
                            ),
                          ),
                        ),
                      ),
                    ),
                  ),
                ),
              ),
            ),
          ),
        ),
      ),
    )

pick_int-nil : (key : String) (default : ℤ) → pick_int [] key default ≡ default
unfolding pick_int value_at int_value
pick_int-nil key default = refl

value_at-found :
    (r : SettingRow) (rows : List SettingRow) (key : String)
    → (r.key == key) ≡ true
    → value_at (r ∷ rows) key ≡ some r.value
unfolding value_at
value_at-found r rows key h = ground (arith, h)

value_at-other :
    (r : SettingRow) (rows : List SettingRow) (key : String)
    → (r.key == key) ≡ false
    → value_at (r ∷ rows) key ≡ value_at rows key
unfolding value_at
value_at-other r rows key h = ground (arith, h)

-- A number of the rows with a range is in it, where its default is.
pub pick_int-InRange :
    (rows : List SettingRow) (key : String) (low high : ℕ) (default : ℤ)
    → All (λ (r : SettingRow). InRange r.key r.value) rows
    → limits key ≡ some (low, high)
    → out_of low high default ≡ false
    → out_of low high (pick_int rows key default) ≡ false
unfolding pick_int
pick_int-InRange [] key low high default h e d = rw (pick_int-nil key default) d
pick_int-InRange (r ∷ rows) key low high default (g, h) e d = elim (Bool-cases (r.key == key)) [
  | inl same ↦
      let limit : limits r.key ≡ some (low, high) = rw ((eq_iff r.key key).0 same) e in
      let here : Within (some (low, high)) r.value = subst (λ l. Within l r.value) limit g in
      rw (value_at-found r rows key same) (here default)
  | inr other ↦
      rw (value_at-other r rows key other) (pick_int-InRange rows key low high default h e d)
]
