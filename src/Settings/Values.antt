-- ===== src/Settings/Values.antt =====
-- The rows of internal/settings as the map from keys to values that they stand for.
use osspilot_ops_api.Common.{
  String, ◌≡◌, sym, true, false, Option, none, some, List, [], ◌∷◌, inl, inr, Bool-cases, ◌==◌,
  eq_iff, arith, if◌then◌else◌,
}
use mathlib.Core.Path.{fun_ext}
use osspilot_ops_api.Schema.Settings.{SettingRow}
use osspilot_ops_api.Settings.Rows.{value_at, put_row}
use osspilot_ops_api.Settings.Fields.{Field}

-- The abstract store: a value for some of the keys
abbrev pub Values : Type 0
Values = String → Option String

-- Writing one value
abbrev pub updated : String → String → Values → Values
updated key value m k = if key == k then some value else m k

abbrev pub or_else : Option String → Option String → Option String
or_else none o = o
or_else (some v) o = some v

-- What a field of a request makes of the store
abbrev pub step : Field → Values → Values
step f m k = if f.key == k then or_else f.value (m k) else m k

abbrev pub overlay : List Field → Values → Values
overlay [] m = m
overlay (f ∷ fs) m = overlay fs (step f m)

-- Keys that differ from a third alike
neither : (a b key : String) → (a == b) ≡ false → (a == key) ≡ true → (b == key) ≡ false
neither a b key other found = ground (arith, eq_iff a b, eq_iff a key, eq_iff b key, other, found)

value_at-put_row :
    (new : SettingRow) (rows : List SettingRow) (key : String)
    → value_at (put_row new rows) key ≡ updated new.key new.value (value_at rows) key
unfolding value_at put_row
value_at-put_row new [] key = ground arith
value_at-put_row new (r ∷ rows) key =
    let later = value_at-put_row new rows key in
    elim (Bool-cases (r.key == new.key)) [
      | inl same ↦ ground (arith, (eq_iff r.key new.key).0 same, same)
      | inr other ↦ ground (arith, neither r.key new.key key other, other, later)
    ]

-- The abstract store of the rows
abbrev pub view : List SettingRow → Values
view rows = value_at rows

pub view-put_row :
    (new : SettingRow) (rows : List SettingRow)
    → view (put_row new rows) ≡ updated new.key new.value (view rows)
view-put_row new rows = fun_ext (value_at-put_row new rows)

step-none : (f : Field) (m : Values) → f.value ≡ none → (k : String) → step f m k ≡ m k
step-none f m e k = elim (Bool-cases (f.key == k)) [
  | inl same ↦ ground (arith, e, same)
  | inr other ↦ ground (arith, other)
]

step-some :
    (f : Field) (v : String) (m : Values)
    → f.value ≡ some v
    → (k : String) → step f m k ≡ updated f.key v m k
step-some f v m e k = elim (Bool-cases (f.key == k)) [
  | inl same ↦ ground (arith, e, same)
  | inr other ↦ ground (arith, other)
]

-- A field that the request does not have changes nothing.
pub step-eq-none : (f : Field) (m : Values) → f.value ≡ none → m ≡ step f m
step-eq-none f m e = sym (fun_ext (step-none f m e))

pub updated-eq-step :
    (f : Field) (v : String) (m : Values) → f.value ≡ some v → updated f.key v m ≡ step f m
updated-eq-step f v m e = sym (fun_ext (step-some f v m e))
