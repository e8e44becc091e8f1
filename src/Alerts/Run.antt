-- ===== src/Alerts/Run.antt =====
-- internal/alerts/evaluate.go: `Run`. Its caller drops the counts of a run that stops with an error, so
-- they are left out.
pub mod Numbers
pub mod Usage
pub mod Rates
pub mod Rules
pub mod Held
mod Tests
use Prim.Native.String.{◌++◌}
use osspilot_ops_api.Common.{
  ℕ, ◌+◌, String, Bool, true, false, Option, none, some, List, [], ◌∷◌, ◌==◌, if◌then◌else◌,
}
use osspilot_ops_api.Common.Int.{ℤ, pos, add_int64}
use osspilot_ops_api.Common.Decimal.{format_int}
use osspilot_ops_api.Action.{Result, ok, err, Action, ◌>>=◌, ◌>>◌, pure}
use osspilot_ops_api.Database.{DbError}
use osspilot_ops_api.Schema.Tenants.{AccountRow}
use osspilot_ops_api.Schema.Alerts.{AlertRow, EventRow}
use osspilot_ops_api.Buckets.{usage_of}
use osspilot_ops_api.Grants.Rows.{Grant}
use osspilot_ops_api.Project.{CallError}
use osspilot_ops_api.Project.Usage.{UsageBucket, AuditWindow}
use osspilot_ops_api.Project.World.{World, on_db}
use osspilot_ops_api.Settings.{SettingsHandler}
use osspilot_ops_api.TenantRbac.Remap.{Codec}
use osspilot_ops_api.Ceph.{Getter}
use osspilot_ops_api.Alerts.Events.{resolve_open}
use osspilot_ops_api.Alerts.Evaluate.{Evaluator, Subject, fire, resolve_and_project, resolve_unseen}
use Numbers.{Double, usage_percent}

-- A value of the map `details`
pub data Detail (W : Type 0) : Type 0 where
  float : W → Detail W
  int : ℤ → Detail W

-- `Evaluator`: which stores it has besides, and the libraries
pub record Sources (R W : Type 0) : Type 0 where
  pub evaluator : Evaluator R
  pub store : Bool
  pub buckets : Bool
  pub grants : Bool
  pub settings : Option (SettingsHandler R)
  pub collate : String → String → Bool
  pub decode_usage : String → Option (List UsageBucket)
  pub decode_window : String → Option AuditWindow
  pub ceph : Getter R
  pub codec : Codec
  pub double : Double W
  -- `json.Marshal`, whose error leaves no text
  pub marshal : List (String × Detail W) → String

abbrev pub Counts : Type 0
Counts = ℕ × ℕ

abbrev pub counted : Bool → Counts
counted true = (1, 0)
counted false = (0, 0)

-- What a loop adds for a row that it has seen
abbrev pub with_seen : ℕ → Counts → List ℕ × Counts → List ℕ × Counts
with_seen id (created, resolved) (seen, later) =
    (id ∷ seen, (created + later.0, resolved + later.1))

abbrev pub usage_or_none : Result CallError (List UsageBucket) → List UsageBucket
usage_or_none (ok us) = us
usage_or_none (err e) = []

-- `used += b.UsedBytes` over the grants
unfoldable pub add_used : List UsageBucket → ℤ → List Grant → ℤ
unfolding add_int64 usage_of
add_used usage used [] = used
add_used usage used (g ∷ gs) = elim (usage_of usage g.bucket_name) [
  | none ↦ add_used usage used gs
  | some u ↦ add_used usage (add_int64 used u.used_bytes) gs
]

abbrev pub used_by : List UsageBucket → Result DbError (List Grant) → ℤ
used_by usage (ok gs) = add_used usage (pos 0) gs
used_by usage (err e) = pos 0

-- `*quota`, which is not nil where it is printed
abbrev quota_text : Option ℤ → String
quota_text none = ""
quota_text (some n) = format_int n

abbrev pub display_name : AccountRow → String
display_name t = elim t.display_name [
  | none ↦ t.username
  | some s ↦ if s == "" then t.username else s
]

module _ {R W : Type 0} (s : Sources R W) where
  abbrev pub percent_text : ℕ → W → String
  percent_text digits x = s.double.format digits (s.double.mul x (s.double.decimal 100 0)) ++ "%"

  abbrev pub usage_text : W → ℤ → Option ℤ → String
  usage_text percent used quota =
      " 已用 "
      ++ (percent_text 1 percent
          ++ ("（" ++ (format_int used ++ (" / " ++ (quota_text quota ++ " 字节）")))))

  abbrev pub usage_details : W → ℤ → List (String × Detail W)
  usage_details percent used =
      (
        "usage_percent",
        float (
            s.double.div (s.double.round (s.double.mul percent (s.double.decimal 10000 0)))
              (s.double.decimal 10000 0)),
      )
      ∷ ("used_bytes", int used)
      ∷ []

  -- `fire` and the count of what it created
  abbrev pub fire_counted :
      AlertRow
      → Subject
      → String
      → String
      → List (String × Detail W)
      → Action (World R) DbError Counts
  fire_counted rule subject title message details = do
    created ← fire s.evaluator rule subject title message (s.marshal details)
    pure (counted created)

  abbrev pub resolve_counted : AlertRow → Option ℕ → Option ℕ → Action (World R) DbError Counts
  resolve_counted rule tenant_id bucket_id = do
    n ← resolve_and_project s.evaluator rule tenant_id bucket_id
    pure (0, n)

  -- `resolveUnseen` after a loop
  abbrev pub resolve_rest :
      AlertRow → (EventRow → Option ℕ) → List ℕ × Counts → Action (World R) DbError Counts
  resolve_rest rule pick (seen, (created, resolved)) = do
    n ← resolve_unseen s.evaluator seen pick rule
    pure (created, resolved + n)

  -- `e.store.ResolveOpen(ctx, rule.ID, nil, nil)`
  abbrev pub resolve_whole : AlertRow → Action (World R) DbError Counts
  resolve_whole rule = do n ← on_db (resolve_open rule.id none none s.evaluator.now); pure (0, n)

  abbrev pub whole : Subject
  whole = record { tenant_id = none; bucket_id = none; bucket_name = none }
