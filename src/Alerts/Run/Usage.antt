-- ===== src/Alerts/Run/Usage.antt =====
-- internal/alerts/evaluate.go: `evalTenantQuota` and `evalBucketCapacity`.
pub mod Reflects
pub mod Capacity
pub mod Quiet
use Prim.Native.String.{◌++◌}
use osspilot_ops_api.Common.{ℕ, Option, none, some, List, [], ◌∷◌, ◌==◌, if◌then◌else◌}
use osspilot_ops_api.Common.Int.{ℤ, pos}
use osspilot_ops_api.Action.{Action, attempt, ◌>>=◌, ◌>>◌, pure}
use osspilot_ops_api.Database.{DbError}
use osspilot_ops_api.Schema.Tenants.{AccountRow}
use osspilot_ops_api.Schema.Alerts.{AlertRow}
use osspilot_ops_api.Buckets.{usage_of}
use osspilot_ops_api.Buckets.Rows.{Bucket, list_buckets}
use osspilot_ops_api.Grants.Rows.{list_grants}
use osspilot_ops_api.Project.Usage.{UsageBucket}
use osspilot_ops_api.Project.World.{World, on_db}
use osspilot_ops_api.Stats.Rows.{tenants}
use osspilot_ops_api.Alerts.Evaluate.{Subject}
use osspilot_ops_api.Alerts.Run.Numbers.{reaches, threshold_percent, usage_percent}
use osspilot_ops_api.Alerts.Run.{
  Sources, Counts, with_seen, used_by, display_name, usage_text, usage_details, fire_counted,
  resolve_counted, resolve_rest,
}

abbrev pub of_tenant : ℕ → Subject
of_tenant id = record { tenant_id = some id; bucket_id = none; bucket_name = none }

abbrev pub of_bucket : Bucket → Subject
of_bucket b = record {
  tenant_id = none;
  bucket_id = some b.row.id;
  bucket_name = some b.row.bucket_name;
}

module _ {R W : Type 0} (s : Sources R W) (rule : AlertRow) (usage : List UsageBucket)
    (threshold : W) where
  -- The grants of a tenant, whose error is no usage
  abbrev pub used_bytes : ℕ → Action (World R) DbError ℤ
  used_bytes id =
      if s.grants
      then (do gs ← attempt (on_db (list_grants s.collate id)); pure (used_by usage gs))
      else pure (pos 0)

  -- A tenant with a quota: over the threshold or not
  unfoldable pub judge_tenant : AccountRow → ℤ → W → Action (World R) DbError Counts
  judge_tenant t used percent =
      if reaches s.double percent threshold
      then fire_counted s rule (of_tenant t.id) (rule.name ++ (": " ++ t.username))
          ("账户 " ++ (display_name t ++ usage_text s percent used t.quota_bytes))
          (usage_details s percent used)
      else resolve_counted s rule (some t.id) none

  abbrev pub see_tenant :
      AccountRow
      → ℤ
      → Option W
      → Action (World R) DbError (List ℕ × Counts)
      → Action (World R) DbError (List ℕ × Counts)
  see_tenant t used none rest = rest
  see_tenant t used (some percent) rest = do
    here ← judge_tenant t used percent
    others ← rest
    pure (with_seen t.id here others)

  -- The loop of `evalTenantQuota`
  unfoldable pub quota_each : List AccountRow → Action (World R) DbError (List ℕ × Counts)
  unfolding usage_percent
  quota_each [] = pure ([], (0, 0))
  quota_each (t ∷ ts) =
      let rest = quota_each ts in
      if t.status == "active"
      then (do
        used ← used_bytes t.id
        see_tenant t used (usage_percent s.double used t.quota_bytes) rest)
      else rest

  -- A bucket that counts: its usage and the part of its quota
  unfoldable pub measured : Bucket → Option (ℤ × W)
  unfolding usage_of usage_percent
  measured b =
      if b.row.status == "active"
      then (elim (usage_of usage b.row.bucket_name) [
        | none ↦ none
        | some u ↦ elim (usage_percent s.double u.used_bytes b.row.quota_bytes) [
          | none ↦ none
          | some percent ↦ some (u.used_bytes, percent)
        ]
      ])
      else none

  unfoldable pub judge_bucket : Bucket → ℤ → W → Action (World R) DbError Counts
  judge_bucket b used percent =
      if reaches s.double percent threshold
      then fire_counted s rule (of_bucket b) (rule.name ++ (": " ++ b.row.bucket_name))
          ("存储桶 " ++ (b.row.bucket_name ++ usage_text s percent used b.row.quota_bytes))
          (usage_details s percent used)
      else resolve_counted s rule none (some b.row.id)

  abbrev pub see_bucket :
      Bucket
      → Option (ℤ × W)
      → Action (World R) DbError (List ℕ × Counts)
      → Action (World R) DbError (List ℕ × Counts)
  see_bucket b none rest = rest
  see_bucket b (some (used, percent)) rest = do
    here ← judge_bucket b used percent
    others ← rest
    pure (with_seen b.row.id here others)

  -- The loop of `evalBucketCapacity`
  unfoldable pub capacity_each : List Bucket → Action (World R) DbError (List ℕ × Counts)
  capacity_each [] = pure ([], (0, 0))
  capacity_each (b ∷ bs) = see_bucket b (measured b) (capacity_each bs)

module _ {R W : Type 0} (s : Sources R W) (rule : AlertRow) (usage : List UsageBucket) where
  -- `evalTenantQuota`
  unfoldable pub eval_tenant_quota : Action (World R) DbError Counts
  eval_tenant_quota =
      if s.evaluator.stats
      then (do
        let threshold = threshold_percent s.double s.codec rule.config (s.double.decimal 1 0)
        rows ← on_db tenants
        seen ← quota_each s rule usage threshold rows
        resolve_rest s rule (λ ev. ev.tenant_id) seen)
      else pure (0, 0)

  abbrev pub capacity_threshold : W
  capacity_threshold = threshold_percent s.double s.codec rule.config (
      if rule.rule_type == "bucket_capacity_90" then s.double.decimal 9 1 else s.double.decimal 8 1)

  -- `evalBucketCapacity`
  unfoldable pub eval_bucket_capacity : Action (World R) DbError Counts
  eval_bucket_capacity =
      if s.buckets
      then (do
        rows ← on_db (list_buckets s.collate)
        seen ← capacity_each s rule usage capacity_threshold rows
        resolve_rest s rule (λ ev. ev.bucket_id) seen)
      else pure (0, 0)
