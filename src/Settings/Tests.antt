-- ===== src/Settings/Tests.antt =====
-- internal/settings at concrete requests.
use osspilot_ops_api.Common.{
  Bool, String, ◌≡◌, ◌≢◌, refl, true, false, none, some, List, [], ◌∷◌, ◌==◌, eq_iff, arith,
}
use osspilot_ops_api.Common.Int.{pos}
use osspilot_ops_api.Common.Text.{trim_space, trim_left, trim_right}
use osspilot_ops_api.Common.Decimal.{parse_int, parse_ℕ, format_ℕ, format_int}
use osspilot_ops_api.Action.{ok}
use osspilot_ops_api.Action.Triple.{Post}
use osspilot_ops_api.Database.{exec, query}
use osspilot_ops_api.Database.Keeps.{OnTables}
use osspilot_ops_api.Http.{Response, json}
use osspilot_ops_api.Schema.{Tables, empty_tables}
use osspilot_ops_api.Schema.Settings.{SettingRow}
use osspilot_ops_api.Auth.{Request}
use osspilot_ops_api.Audit.{write_entry, insert_entry}
use osspilot_ops_api.Audit.Actor.{write_for}
use osspilot_ops_api.Regions.Rows.{list_regions}
use osspilot_ops_api.Project.{Network, Call, put_settings, do_call, do_json, read_reply}
use osspilot_ops_api.Project.World.{World, on_db, on_remote}
use osspilot_ops_api.Project.World.Keeps.{OnDb}
use osspilot_ops_api.Settings.{
  SettingsHandler, loaded, runtime, public, project_to, project_tenant, read_update, answer_update,
  put, tenant_values, add_region, add_runtime, assign, entry_at,
}
use osspilot_ops_api.Settings.Rows.{
  Fallbacks, load, put_row, upsert, value_at, pick, pick_ptr, pick_int, pick_bool, pick_value,
  int_value, bool_value, latest,
}
use osspilot_ops_api.Settings.Valid.{UpdateSettings, validate_update}
use osspilot_ops_api.Settings.Public.{
  PublicSettings, public_of, mask_access, mask_secret, repeated, drop_bytes,
}
use osspilot_ops_api.Settings.Fields.{fields, write_fields}
use osspilot_ops_api.Settings.Values.{view}
use osspilot_ops_api.Settings.Saving.{Saved, Unsaved, put_effect}
use osspilot_ops_api.Settings.Cleanup.{Waits, put-Waits}
use osspilot_ops_api.Settings.Secrets.{SameButSecret, public_of_hides, put_keeps_secret}
use osspilot_ops_api.Settings.Puts.{then_put, no_puts, ShownInRange, Puts-ShownInRange}

abbrev pub nothing_asked : UpdateSettings
nothing_asked = record {
  s3_endpoint = none;
  rgw_access_key = none;
  rgw_secret_key = none;
  default_upload_presign_expires = none;
  default_download_presign_expires = none;
  max_upload_bytes = none;
  audit_enabled = none;
  office_url = none;
  download_cdn_url = none;
  preview_cdn_url = none;
  object_http_domain = none;
  object_https_domain = none;
  ceph_mgmt_api_url = none;
  tenant_login_logo_text = none;
  tenant_login_title = none;
  tenant_login_subtitle = none;
  trash_retention_days = none;
  trash_cleanup_enabled = none;
  lifecycle_cleanup_enabled = none;
  version_retention_days = none;
  version_cleanup_enabled = none;
  multipart_stale_days = none;
  multipart_cleanup_enabled = none;
}

abbrev pub fallbacks : Fallbacks
fallbacks = record {
  s3_endpoint = "";
  rgw_access_key = "";
  rgw_secret_key = "";
  download_cdn_url = "";
  preview_cdn_url = "";
  object_http_domain = "";
  object_https_domain = "";
  office_url = "";
  ceph_mgmt_api_url = "";
}

abbrev pub setting : String → String → SettingRow
setting key value = record { key = key; value = value; is_secret = false; updated_at = 7 }

abbrev pub with_rows : List SettingRow → Tables
with_rows rows = record empty_tables { settings = rows }

abbrev pub silent : Network (List Call)
silent = record {
  exchange = λ call calls. (none, call ∷ calls);
  escape = λ s. s;
  query_escape = λ s. s;
  detail = λ s. none;
  status_text = λ n. "";
}

abbrev pub handler : SettingsHandler (List Call)
handler = record {
  store = true;
  regions = true;
  log = true;
  fallbacks = fallbacks;
  project = some (record { base = "http://t"; secret = "s" });
  net = silent;
  to_lower = λ s. s;
}

abbrev pub asking : UpdateSettings → Request UpdateSettings
asking req = record {
  path = "";
  authorization = "";
  path_value = λ name. "";
  body = some req;
  origin = record { source_ip = none; user_agent = none };
  now = 50;
  salt = 0;
}

abbrev world : List SettingRow → List Bool → World (List Call)
world rows faults = record { db = record { tables = with_rows rows; faults = faults }; remote = [] }

code : Unit {0}
unfolding put read_update answer_update load loaded public runtime project_tenant project_to
    validate_update public_of fields write_fields upsert put_row pick pick_ptr pick_int pick_bool
    pick_value int_value bool_value value_at latest mask_access mask_secret repeated drop_bytes
    trim_space trim_left trim_right parse_int parse_ℕ format_ℕ format_int on_db on_remote exec query
    write_for write_entry insert_entry list_regions put_settings do_call do_json read_reply
    tenant_values add_region add_runtime assign entry_at
code = tt

abbrev cleaning : UpdateSettings
cleaning = record nothing_asked {
  trash_retention_days = some (pos 30);
  trash_cleanup_enabled = some true;
  default_upload_presign_expires = some (pos 900);
}

abbrev rows_after : List SettingRow → List Bool → UpdateSettings → List SettingRow
rows_after rows faults req =
    (put handler (asking req) none (world rows faults)).1.db.tables.settings

stored_thirty : value_at (rows_after [] [] cleaning) "trash_retention_days" ≡ some "30"
unfolding code
stored_thirty = refl

put_effect_example :
    Post
      (λ a. OnDb (OnTables (Saved handler (with_rows []) (asking cleaning) none a)))
      (OnDb (OnTables (Unsaved handler (with_rows []) (asking cleaning) none)))
      (put handler (asking cleaning) none (world [] []))
put_effect_example = put_effect handler (with_rows []) (asking cleaning) none (world [] []) refl

-- The cleanup of the trash is on; its days are written, and then the database fails before it is off.
abbrev enabled_rows : List SettingRow
enabled_rows = setting "trash_retention_days" "30" ∷ setting "trash_cleanup_enabled" "true" ∷ []

abbrev disabling : UpdateSettings
disabling = record nothing_asked {
  trash_retention_days = some (pos 0);
  trash_cleanup_enabled = some false;
}

half_written :
    rows_after enabled_rows (false ∷ false ∷ true ∷ []) disabling
    ≡ record { key = "trash_retention_days"; value = "0"; is_secret = false; updated_at = 50 }
      ∷ setting "trash_cleanup_enabled" "true"
      ∷ []
unfolding code
half_written = refl

-- An access key is shown with its last four bytes, and stored so when it is sent back.
starred_access_key :
    value_at
      (rows_after (setting "rgw_access_key" "AKIA1234" ∷ []) [] (record nothing_asked {
        rgw_access_key =
            (public_of
              (λ s. s)
              fallbacks
              (setting "rgw_access_key" "AKIA1234" ∷ [])).rgw_access_key;
      }))
      "rgw_access_key"
    ≡ some "****1234"
unfolding code
starred_access_key = refl

abbrev shown : List SettingRow → Response PublicSettings
shown rows = json 200 (public_of (λ s. s) fallbacks rows)

cleaned :
    (put handler (asking cleaning) none (world [] [])).0 ≡ ok (shown (rows_after [] [] cleaning))
unfolding code
cleaned = refl

put-Waits_example :
    Waits (λ s. s) (put handler (asking cleaning) none (world [] [])).1.db.tables.settings
put-Waits_example =
    put-Waits handler refl refl (with_rows []) (asking cleaning) none (world [] [])
      (shown (rows_after [] [] cleaning)) refl cleaned

abbrev secret_rows : String → List SettingRow
secret_rows secret = setting "s3_endpoint" "http://s3" ∷ setting "rgw_secret_key" secret ∷ []

abbrev resent : UpdateSettings
resent = record nothing_asked {
  s3_endpoint = some "http://other";
  rgw_secret_key = (public_of (λ s. s) fallbacks (secret_rows "s1")).rgw_secret_key;
}

resent_done :
    (put handler (asking resent) none (world (secret_rows "s1") [])).0
    ≡ ok (shown (rows_after (secret_rows "s1") [] resent))
unfolding code
resent_done = refl

put_keeps_secret_example :
    view
      (put handler (asking resent) none (world (secret_rows "s1") [])).1.db.tables.settings
      "rgw_secret_key"
    ≡ view (secret_rows "s1") "rgw_secret_key"
put_keeps_secret_example =
    put_keeps_secret handler (with_rows (secret_rows "s1")) (asking resent) none
      (world (secret_rows "s1") []) (shown (rows_after (secret_rows "s1") [] resent)) resent
      fallbacks refl refl refl resent_done

other_key : (a b : String) → (a == b) ≡ false → (b == a) ≡ false
other_key a b e = ground (arith, eq_iff a b, eq_iff b a, e)

same_but_secret : SameButSecret (secret_rows "s1") (secret_rows "s2")
unfolding value_at latest
same_but_secret = record {
  values = λ key e. let flipped = other_key key "rgw_secret_key" e in ground (arith, flipped);
  times = refl;
}

is_set : (s : String) → (s == "") ≡ false → s ≢ ""
is_set s e = λ p. ground (arith, (eq_iff s "").1 p, e)

set_1 : pick (secret_rows "s1") "rgw_secret_key" "" ≢ ""
unfolding code
set_1 = is_set "s1" refl

set_2 : pick (secret_rows "s2") "rgw_secret_key" "" ≢ ""
unfolding code
set_2 = is_set "s2" refl

public_of_hides_example :
    public_of (λ s. s) fallbacks (secret_rows "s1")
    ≡ public_of (λ s. s) fallbacks (secret_rows "s2")
public_of_hides_example =
    public_of_hides (λ s. s) fallbacks (secret_rows "s1") (secret_rows "s2") same_but_secret set_1
      set_2

Puts-ShownInRange_example : ShownInRange (
    public_of
      (λ s. s)
      fallbacks
      (put handler (asking cleaning) none (world [] [])).1.db.tables.settings)
Puts-ShownInRange_example =
    Puts-ShownInRange (λ s. s) fallbacks
      (then_put handler (asking cleaning) none (world [] []) no_puts refl refl) refl
