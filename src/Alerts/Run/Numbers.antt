-- ===== src/Alerts/Run/Numbers.antt =====
-- The numbers of internal/alerts/evaluate.go. A floating-point number is a type with the operations
-- that the code uses.
use osspilot_ops_api.Common.{ℕ, String, Bool, Option, none, some, if◌then◌else◌}
use osspilot_ops_api.Common.Int.{ℤ, is_positive}
use osspilot_ops_api.TenantRbac.Remap.{Json, number, object, Codec}
use osspilot_ops_api.Ceph.{value_at}
use osspilot_ops_api.Alerts.Rows.{nz_json}

pub record Double (W : Type 0) : Type 0 where
  -- `float64(n)` and `int64(x)`
  pub of_int : ℤ → W
  pub to_int : W → ℤ
  -- The literal m · 10^-e
  pub decimal : ℕ → ℕ → W
  pub add : W → W → W
  pub mul : W → W → W
  pub div : W → W → W
  pub le : W → W → Bool
  pub round : W → W
  -- The number that a text stands for
  pub parse : String → Option W
  -- `%.nf`
  pub format : ℕ → W → String

module _ {W : Type 0} (d : Double W) where
  abbrev pub reaches : W → W → Bool
  reaches x threshold = d.le threshold (d.add x (d.decimal 1 12))

  abbrev or_default : W → Option W → W
  or_default w none = w
  or_default w (some x) = x

  abbrev number_or : W → Option Json → W
  number_or w (some (number s)) = or_default w (d.parse s)
  number_or w _ = w

  abbrev config_of : String → W → Option Json → W
  config_of key w (some (object fs)) = number_or w (value_at key fs)
  config_of key w _ = w

  -- `configFloat`, and `thresholdPercent` at its key
  unfoldable pub config_float : Codec → String → String → W → W
  unfolding nz_json value_at
  config_float codec config key w = config_of key w (codec.unmarshal (nz_json config "{}"))

  abbrev pub threshold_percent : Codec → String → W → W
  threshold_percent codec config = config_float codec config "threshold_percent"

  -- `usagePercent`
  unfoldable pub usage_percent : ℤ → Option ℤ → Option W
  usage_percent used none = none
  usage_percent used (some quota) =
      if is_positive quota then some (d.div (d.of_int used) (d.of_int quota)) else none
