-- ===== src/Alerts/Run/Held.antt =====
-- The evaluations of usage of internal/alerts, and the open events.
use osspilot_ops_api.Common.{ℕ, String, Option, none, some, List, [], ◌∷◌}
use osspilot_ops_api.Common.Int.{ℤ}
use osspilot_ops_api.Action.{Action}
use osspilot_ops_api.Action.Keeps.{Keeps, Keeps-if, Keeps-bind, Keeps-pure, keeps_rules}
use osspilot_ops_api.Action.Triple.{Post-same}
use osspilot_ops_api.Database.{DbError}
use osspilot_ops_api.Database.Keeps.{Keeps-query}
use osspilot_ops_api.Schema.Tenants.{AccountRow}
use osspilot_ops_api.Schema.Alerts.{AlertRow, EventRow}
use osspilot_ops_api.Buckets.Rows.{Bucket, list_buckets}
use osspilot_ops_api.Grants.Rows.{list_grants}
use osspilot_ops_api.Project.Usage.{UsageBucket}
use osspilot_ops_api.Project.World.{World}
use osspilot_ops_api.Project.World.Keeps.{Keeps-on_db}
use osspilot_ops_api.Stats.Rows.{tenants}
use osspilot_ops_api.Alerts.Evaluate.{Subject, fire}
use osspilot_ops_api.Alerts.Firing.{Kept, Held, resolve_open-Kept}
use osspilot_ops_api.Alerts.Firing.Calls.{fire-Held, resolve_and_project-Held, resolve_unseen-Held}
use osspilot_ops_api.Alerts.Run.{
  Sources, Detail, Counts, fire_counted, resolve_counted, resolve_rest, resolve_whole,
}
use osspilot_ops_api.Alerts.Run.Usage.{
  used_bytes, judge_tenant, see_tenant, quota_each, judge_bucket, see_bucket, capacity_each,
  eval_tenant_quota, eval_bucket_capacity,
}

module _ {R W : Type 0} (s : Sources R W) where
  pub fire_counted-Held :
      (rule : AlertRow) (subject : Subject) (title message : String)
      (details : List (String × Detail W))
      → Keeps Held (fire_counted s rule subject title message details)
  fire_counted-Held rule subject title message details =
      let fires : Keeps Held (fire s.evaluator rule subject title message (s.marshal details)) =
        record {
          at = λ w h.
              Post-same Held _
                ((fire-Held s.evaluator rule subject title message (s.marshal details)).at w h);
        } in
      Keeps-bind _ _ fires (λ created. Keeps-pure _)

  resolve_counted-Held :
      (rule : AlertRow) (tenant_id bucket_id : Option ℕ)
      → Keeps Held (resolve_counted s rule tenant_id bucket_id)
  resolve_counted-Held rule tenant_id bucket_id =
      Keeps-bind _ _ (resolve_and_project-Held s.evaluator rule tenant_id bucket_id)
        (λ n. Keeps-pure _)

  resolve_rest-Held :
      (rule : AlertRow) (pick : EventRow → Option ℕ) (seen : List ℕ × Counts)
      → Keeps Held (resolve_rest s rule pick seen)
  resolve_rest-Held rule pick seen =
      Keeps-bind _ _ (resolve_unseen-Held s.evaluator seen.0 pick rule) (λ n. Keeps-pure _)

  pub resolve_whole-Held : (rule : AlertRow) → Keeps Held (resolve_whole s rule)
  resolve_whole-Held rule =
      Keeps-bind _ _ (Keeps-on_db _ (resolve_open-Kept rule.id none none s.evaluator.now))
        (λ n. Keeps-pure _)

  module _ (rule : AlertRow) (usage : List UsageBucket) (threshold : W) where
    list_grants-Kept : (id : ℕ) → Keeps Kept (list_grants s.collate id)
    unfolding list_grants
    list_grants-Kept id = Keeps-query _

    used_bytes-Held : (id : ℕ) → Keeps Held (used_bytes s rule usage threshold id)
    used_bytes-Held id =
        Keeps-if s.grants _ _ (search (keeps_rules, Keeps-on_db, list_grants-Kept) depth 20)
          (Keeps-pure _)

    judge_tenant-Held :
        (t : AccountRow) (used : ℤ) (percent : W)
        → Keeps Held (judge_tenant s rule usage threshold t used percent)
    unfolding judge_tenant
    judge_tenant-Held t used percent =
        Keeps-if _ _ _ (fire_counted-Held rule _ _ _ _) (resolve_counted-Held rule (some t.id) none)

    see_tenant-Held :
        (t : AccountRow) (used : ℤ) (percent : Option W)
        (rest : Action (World R) DbError (List ℕ × Counts))
        → Keeps Held rest
        → Keeps Held (see_tenant s rule usage threshold t used percent rest)
    see_tenant-Held t used none rest k = k
    see_tenant-Held t used (some percent) rest k =
        Keeps-bind _ _ (judge_tenant-Held t used percent)
          λ here. Keeps-bind _ _ k λ others. Keeps-pure _

    quota_each-Held : (ts : List AccountRow) → Keeps Held (quota_each s rule usage threshold ts)
    unfolding quota_each
    quota_each-Held [] = Keeps-pure _
    quota_each-Held (t ∷ ts) =
        let rest : Keeps Held (quota_each s rule usage threshold ts) = quota_each-Held ts in
        Keeps-if _ _ _
          (Keeps-bind _ _ (used_bytes-Held t.id) (λ used. see_tenant-Held t used _ _ rest)) rest

    judge_bucket-Held :
        (b : Bucket) (used : ℤ) (percent : W)
        → Keeps Held (judge_bucket s rule usage threshold b used percent)
    unfolding judge_bucket
    judge_bucket-Held b used percent =
        Keeps-if _ _ _ (fire_counted-Held rule _ _ _ _)
          (resolve_counted-Held rule none (some b.row.id))

    see_bucket-Held :
        (b : Bucket) (found : Option (ℤ × W)) (rest : Action (World R) DbError (List ℕ × Counts))
        → Keeps Held rest
        → Keeps Held (see_bucket s rule usage threshold b found rest)
    see_bucket-Held b none rest k = k
    see_bucket-Held b (some (used, percent)) rest k =
        Keeps-bind _ _ (judge_bucket-Held b used percent)
          λ here. Keeps-bind _ _ k λ others. Keeps-pure _

    capacity_each-Held : (bs : List Bucket) → Keeps Held (capacity_each s rule usage threshold bs)
    unfolding capacity_each
    capacity_each-Held [] = Keeps-pure _
    capacity_each-Held (b ∷ bs) = see_bucket-Held b _ _ (capacity_each-Held bs)

  tenants-Kept : Keeps Kept tenants
  unfolding tenants
  tenants-Kept = Keeps-query _

  list_buckets-Kept : Keeps Kept (list_buckets s.collate)
  unfolding list_buckets
  list_buckets-Kept = Keeps-query _

  pub eval_tenant_quota-Held :
      (rule : AlertRow) (usage : List UsageBucket) → Keeps Held (eval_tenant_quota s rule usage)
  unfolding eval_tenant_quota
  eval_tenant_quota-Held rule usage =
      Keeps-if _ _ _
        (Keeps-bind _ _ (Keeps-on_db _ tenants-Kept)
          λ rows. Keeps-bind _ _ (quota_each-Held rule usage _ rows) (resolve_rest-Held rule _))
        (Keeps-pure _)

  pub eval_bucket_capacity-Held :
      (rule : AlertRow) (usage : List UsageBucket) → Keeps Held (eval_bucket_capacity s rule usage)
  unfolding eval_bucket_capacity
  eval_bucket_capacity-Held rule usage =
      Keeps-if _ _ _
        (Keeps-bind _ _ (Keeps-on_db _ list_buckets-Kept)
          λ rows. Keeps-bind _ _ (capacity_each-Held rule usage _ rows) (resolve_rest-Held rule _))
        (Keeps-pure _)
