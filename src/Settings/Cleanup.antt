-- ===== src/Settings/Cleanup.antt =====
-- The cleanups that internal/settings enables, and the days that they wait.
use osspilot_ops_api.Common.{
  ℕ, ◌<◌, ◌≤◌, ◌^◌, String, ◌≡◌, refl, sym, ap, Bool, true, false, ◌&&◌, Option, none, some, List,
  arith,
}
use osspilot_ops_api.Common.Int.{ℤ, pos, negsuc}
use osspilot_ops_api.Common.Text.{trim_space}
use osspilot_ops_api.Common.Decimal.{format_int, format_ℕ}
use osspilot_ops_api.Common.Decimal.RoundTrip.{trim_space-format_ℕ, parse_int-format_ℕ}
use osspilot_ops_api.Action.{ok}
use osspilot_ops_api.Action.Triple.{Post-ok}
use osspilot_ops_api.Http.{Response}
use osspilot_ops_api.Schema.{Tables}
use osspilot_ops_api.Schema.Settings.{SettingRow}
use osspilot_ops_api.Auth.{Request}
use osspilot_ops_api.Auth.Accounts.{User}
use osspilot_ops_api.Project.World.{World}
use osspilot_ops_api.Settings.{SettingsHandler, put}
use osspilot_ops_api.Settings.Saving.{Saved, put_effect}
use osspilot_ops_api.Settings.Rows.{int_value, bool_value, pick_int, pick_bool, value_at}
use osspilot_ops_api.Settings.Valid.{
  UpdateSettings, validate_update, check, check_cleanup, logo_too_long, given, out_of, chosen,
  int_below, max_days, default_multipart_stale,
}
use osspilot_ops_api.Settings.Public.{PublicSettings}
use osspilot_ops_api.Settings.Fields.{fields, formatted, spelled}
use osspilot_ops_api.Settings.Values.{Values, overlay, or_else, view}

pub check-none :
    (bad : Bool) (message : String) (rest : Option String)
    → check bad message rest ≡ none
    → (bad ≡ false) × (rest ≡ none)
check-none true message rest e = (cc, cc)
check-none false message rest e = (refl, e)

pub int_value-format_ℕ :
    (n : ℕ) (default : ℤ) → n ≤ 3650 → int_value (some (format_ℕ n)) default ≡ pos n
unfolding int_value
int_value-format_ℕ n default h =
    let fits : n < 2 ^ 63 = omega (arith, h) in
    rw (int_value, trim_space-format_ℕ n, parse_int-format_ℕ n fits) refl

-- The number that is stored after a request
chosen_int :
    (days : Option ℤ) (old : Option String) (default : ℤ)
    → given (out_of 0 max_days) days ≡ false
    → int_value (or_else (formatted days) old) default ≡ chosen days (int_value old default)
unfolding format_int
chosen_int none old default h = refl
chosen_int (some (pos n)) old default h = int_value-format_ℕ n default (ground (arith, h))
chosen_int (some (negsuc n)) old default h = ground (arith, h)

module _ (to_lower : String → String) where
  -- Each cleanup that the rows enable waits for a day or more.
  pub record Waits (rows : List SettingRow) : Type 0 where
    pub trash :
        pick_bool to_lower rows "trash_cleanup_enabled" false ≡ true
        → int_below 1 (pick_int rows "trash_retention_days" (pos 0)) ≡ false
    pub version :
        pick_bool to_lower rows "version_cleanup_enabled" false ≡ true
        → int_below 1 (pick_int rows "version_retention_days" (pos 0)) ≡ false
    pub multipart :
        pick_bool to_lower rows "multipart_cleanup_enabled" false ≡ true
        → int_below 1 (pick_int rows "multipart_stale_days" default_multipart_stale) ≡ false

module _ (to_lower : String → String) (true_word : to_lower "true" ≡ "true")
    (false_word : to_lower "false" ≡ "false") where
  chosen_bool :
      (on : Option Bool) (old : Option String)
      → bool_value to_lower (or_else (spelled on) old) false
        ≡ chosen on (bool_value to_lower old false)
  unfolding bool_value trim_space
  chosen_bool none old = refl
  chosen_bool (some true) old = rw true_word refl
  chosen_bool (some false) old = rw false_word refl

  -- A cleanup that the checks let through waits for a day or more.
  cleanup_lem :
      (key name : String) (days : Option ℤ) (on : Option Bool) (old_days old_on : Option String)
      (default : ℤ) (rest : Option String)
      → check_cleanup key name days on
          (int_value old_days default)
          (bool_value to_lower old_on false)
          rest
        ≡ none
      → bool_value to_lower (or_else (spelled on) old_on) false ≡ true
      → int_below 1 (int_value (or_else (formatted days) old_days) default) ≡ false
  cleanup_lem key name days on old_days old_on default rest e enabled =
      let (in_range, more) = check-none (given (out_of 0 max_days) days) _ _ e in
      let (waits, _) =
        check-none
          (chosen on (bool_value to_lower old_on false)
            && int_below 1 (chosen days (int_value old_days default)))
          _ _ more in
      rw (chosen_int days old_days default in_range)
        (ground (arith, waits, enabled, chosen_bool on old_on))

  after_cleanup :
      (rows new : List SettingRow) (key on_key name : String) (days : Option ℤ) (on : Option Bool)
      (default : ℤ) (rest : Option String)
      → value_at new key ≡ or_else (formatted days) (value_at rows key)
      → value_at new on_key ≡ or_else (spelled on) (value_at rows on_key)
      → check_cleanup key name days on
          (pick_int rows key default)
          (pick_bool to_lower rows on_key false)
          rest
        ≡ none
      → (pick_bool to_lower new on_key false ≡ true
          → int_below 1 (pick_int new key default) ≡ false)
        × (rest ≡ none)
  unfolding pick_int pick_bool
  after_cleanup rows new key on_key name days on default rest same_days same_on e = (
    λ enabled. rw same_days (
        cleanup_lem key name days on (value_at rows key) (value_at rows on_key) default rest e
          (rw (sym same_on) enabled)),
    (check-none
        (chosen on (pick_bool to_lower rows on_key false)
          && int_below 1 (chosen days (pick_int rows key default)))
        _ _ (check-none (given (out_of 0 max_days) days) _ _ e).1).1,
  )

  Waits-overlay :
      (req : UpdateSettings) (rows new : List SettingRow)
      → validate_update to_lower req rows ≡ none
      → view new ≡ overlay (fields req) (view rows)
      → Waits to_lower new
  unfolding validate_update pick_int pick_bool fields
  Waits-overlay req rows new e same =
      let (_, e1) = check-none (given (out_of 600 1800) req.default_upload_presign_expires) _ _ e in
      let (_, e2) =
        check-none (given (out_of 300 600) req.default_download_presign_expires) _ _ e1 in
      let (_, e3) = check-none (given (int_below 1) req.max_upload_bytes) _ _ e2 in
      let (_, e4) = check-none (given logo_too_long req.tenant_login_logo_text) _ _ e3 in
      let at = λ (key : String). ap (λ (m : Values). m key) same in
      let (trash, e5) =
        after_cleanup rows new "trash_retention_days" "trash_cleanup_enabled" "trash"
          req.trash_retention_days req.trash_cleanup_enabled (pos 0) _ (at "trash_retention_days")
          (at "trash_cleanup_enabled") e4 in
      let (version, e6) =
        after_cleanup rows new "version_retention_days" "version_cleanup_enabled" "version"
          req.version_retention_days req.version_cleanup_enabled (pos 0) _
          (at "version_retention_days") (at "version_cleanup_enabled") e5 in
      let (multipart, _) =
        after_cleanup rows new "multipart_stale_days" "multipart_cleanup_enabled" "multipart"
          req.multipart_stale_days req.multipart_cleanup_enabled default_multipart_stale _
          (at "multipart_stale_days") (at "multipart_cleanup_enabled") e6 in
      record { trash = trash; version = version; multipart = multipart }

module _ {R : Type 0} (h : SettingsHandler R) (true_word : h.to_lower "true" ≡ "true")
    (false_word : h.to_lower "false" ≡ "false") (t : Tables) (r : Request UpdateSettings)
    (user : Option User) where
  Saved-Waits :
      (a : Response PublicSettings) (u : Tables)
      → Saved h t r user a u
      → Waits h.to_lower u.settings
  Saved-Waits a u s =
      Waits-overlay h.to_lower true_word false_word s.req t.settings u.settings s.accepted.valid
        s.shows.values

  -- Where lower case leaves "true" and "false" alone: whatever was stored before, whatever the
  -- faults and the tenant API, after an answer of `put` without an error each of the cleanups of the
  -- trash, of old versions and of stale uploads that is enabled waits for at least one day.
  pub put-Waits :
      (w : World R) (a : Response PublicSettings)
      → w.db.tables ≡ t
      → (put h r user w).0 ≡ ok a
      → Waits h.to_lower (put h r user w).1.db.tables.settings
  put-Waits w a e done =
      Saved-Waits a _ (Post-ok _ _ (put h r user w) a (put_effect h t r user w e) done).holds.holds
