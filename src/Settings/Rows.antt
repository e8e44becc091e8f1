-- ===== src/Settings/Rows.antt =====
-- internal/settings/store.go
use osspilot_ops_api.Common.{
  ℕ, ltb, String, Bool, true, false, ◌||◌, Option, none, some, List, [], ◌∷◌, first, ◌==◌,
  if◌then◌else◌,
}
use osspilot_ops_api.Common.Int.{ℤ}
use osspilot_ops_api.Common.Text.{trim_space}
use osspilot_ops_api.Common.Decimal.{parse_int}
use osspilot_ops_api.Action.{ok, Action}
use osspilot_ops_api.Database.{DbError, exec, query}
use osspilot_ops_api.Schema.{Tables, Store}
use osspilot_ops_api.Schema.Settings.{SettingRow}

pub record Fallbacks : Type 0 where
  pub s3_endpoint : String
  pub rgw_access_key : String
  pub rgw_secret_key : String
  pub download_cdn_url : String
  pub preview_cdn_url : String
  pub object_http_domain : String
  pub object_https_domain : String
  pub office_url : String
  pub ceph_mgmt_api_url : String

abbrev pub by_key : String → SettingRow → Bool
by_key key r = r.key == key

-- `rows[key]`, the value of the row
unfoldable pub value_at : List SettingRow → String → Option String
value_at rows key = elim (first (by_key key) rows) [ none ↦ none | some r ↦ some r.value ]

-- `Load`: the map has a row for each key.
unfoldable pub load : Action Store DbError (List SettingRow)
unfolding query
load = query (λ t. ok t.settings)

abbrev pub set_value : SettingRow → SettingRow → SettingRow
set_value new old = record old {
  value = new.value;
  is_secret = new.is_secret;
  updated_at = new.updated_at;
}

-- INSERT … ON CONFLICT (key) DO UPDATE
unfoldable pub put_row : SettingRow → List SettingRow → List SettingRow
put_row new [] = new ∷ []
put_row new (r ∷ rows) =
    let rest = put_row new rows in if by_key new.key r then set_value new r ∷ rows else r ∷ rest

abbrev pub with_settings : (List SettingRow → List SettingRow) → Tables → Tables
with_settings f t = record t { settings = f t.settings }

-- `Upsert`
unfoldable pub upsert : ℕ → String → String → Bool → Action Store DbError Unit
unfolding exec
upsert now key value secret =
    let new : SettingRow = record {
      key = key;
      value = value;
      is_secret = secret;
      updated_at = now;
    } in
    exec (λ t. (ok tt, with_settings (put_row new) t))

abbrev non_blank : String → String → String
non_blank v fallback = if v == "" then fallback else v

unfoldable pub pick_value : Option String → String → String
unfolding trim_space
pick_value none fallback = fallback
pick_value (some v) fallback = non_blank (trim_space v) fallback

-- `pick`
unfoldable pub pick : List SettingRow → String → String → String
pick rows key fallback = pick_value (value_at rows key) fallback

-- `&v`, or nil where `v` is empty
abbrev pub non_empty : String → Option String
non_empty v = if v == "" then none else some v

-- `pickPtr`
unfoldable pub pick_ptr : List SettingRow → String → String → Option String
pick_ptr rows key fallback = non_empty (pick rows key fallback)

unfoldable pub int_value : Option String → ℤ → ℤ
unfolding trim_space parse_int
int_value none fallback = fallback
int_value (some v) fallback = elim (parse_int (trim_space v)) [ none ↦ fallback | some n ↦ n ]

-- `pickInt` and `pickInt64`: an `int` has 64 bits.
unfoldable pub pick_int : List SettingRow → String → ℤ → ℤ
pick_int rows key fallback = int_value (value_at rows key) fallback

module _ (to_lower : String → String) where
  -- The two cases of the `switch`
  unfoldable pub bool_value : Option String → Bool → Bool
  unfolding trim_space
  bool_value none fallback = fallback
  bool_value (some v) fallback =
      let word = to_lower (trim_space v) in
      if word == "1" || word == "true" || word == "yes" || word == "on"
      then true
      else if word == "0" || word == "false" || word == "no" || word == "off"
      then false
      else fallback

  -- `pickBool`
  unfoldable pub pick_bool : List SettingRow → String → Bool → Bool
  pick_bool rows key fallback = bool_value (value_at rows key) fallback

abbrev later_of : ℕ → Option ℕ → Option ℕ
later_of at none = some at
later_of at (some t) = if ltb t at then some at else some t

-- `latest`
unfoldable pub latest : List SettingRow → Option ℕ
latest [] = none
latest (r ∷ rows) = later_of r.updated_at (latest rows)
