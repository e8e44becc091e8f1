-- ===== src/Alerts/Run/Rules/Held.antt =====
-- `Run` of internal/alerts leaves at most one open event for a rule, a tenant and a bucket.
use osspilot_ops_api.Common.{String, Bool, Option, none, some, List, [], ◌∷◌, ◌==◌}
use osspilot_ops_api.Action.{Result, ok, err}
use osspilot_ops_api.Action.Keeps.{
  Keeps, Keeps-if, Keeps-bind, Keeps-guard, Keeps-pure, keeps_rules,
}
use osspilot_ops_api.Database.{DbError}
use osspilot_ops_api.Database.Keeps.{Keeps-query}
use osspilot_ops_api.Schema.Alerts.{AlertRow}
use osspilot_ops_api.Project.{Client, CallError}
use osspilot_ops_api.Project.Usage.{UsageBucket, AuditWindow}
use osspilot_ops_api.Project.World.Keeps.{Keeps-on_db, Keeps-on_remote}
use osspilot_ops_api.Settings.{SettingsHandler, Runtime}
use osspilot_ops_api.Settings.Put.{runtime-Keeps}
use osspilot_ops_api.TenantRbac.Remap.{Json}
use osspilot_ops_api.Alerts.Rows.{list_enabled_alerts}
use osspilot_ops_api.Alerts.Firing.{Kept, Held}
use osspilot_ops_api.Alerts.Run.{Sources}
use osspilot_ops_api.Alerts.Run.Rates.{
  judge_rate, judge_payload, judge_runtime, rgw_with, eval_rgw_5xx, judge_window, audit_with,
  eval_audit_rate,
}
use osspilot_ops_api.Alerts.Run.Rules.{eval_rule, eval_rules, load_usage, run}
use osspilot_ops_api.Alerts.Run.Held.{
  fire_counted-Held, resolve_whole-Held, eval_tenant_quota-Held, eval_bucket_capacity-Held,
}

module _ {R W : Type 0} (s : Sources R W) where
  module _ (rule : AlertRow) where
    judge_rate-Held : (rate : Option W) → Keeps Held (judge_rate s rule rate)
    unfolding judge_rate
    judge_rate-Held none = resolve_whole-Held s rule
    judge_rate-Held (some rate) =
        Keeps-if _ _ _ (fire_counted-Held s rule _ _ _ _) (resolve_whole-Held s rule)

    judge_payload-Held : (payload : Result String Json) → Keeps Held (judge_payload s rule payload)
    judge_payload-Held (err e) = resolve_whole-Held s rule
    judge_payload-Held (ok payload) = judge_rate-Held _

    judge_runtime-Held : (rt : Result DbError Runtime) → Keeps Held (judge_runtime s rule rt)
    judge_runtime-Held (err e) = resolve_whole-Held s rule
    judge_runtime-Held (ok rt) =
        Keeps-if (rt.ceph_mgmt_api_url == "") _ _ (resolve_whole-Held s rule)
          (search (keeps_rules, Keeps-on_remote, judge_payload-Held) depth 20)

    rgw_with-Held : (h : Option (SettingsHandler R)) → Keeps Held (rgw_with s rule h)
    rgw_with-Held none = resolve_whole-Held s rule
    rgw_with-Held (some h) =
        search (keeps_rules, Keeps-on_db, runtime-Keeps, judge_runtime-Held) depth 20

    judge_window-Held :
        (actions : List String) (failure_only : Bool) (win : Result CallError AuditWindow)
        → Keeps Held (judge_window s rule actions failure_only win)
    judge_window-Held actions failure_only (err e) = Keeps-pure _
    judge_window-Held actions failure_only (ok win) =
        Keeps-if _ _ _ (fire_counted-Held s rule _ _ _ _) (resolve_whole-Held s rule)

    eval_rgw_5xx-Held : Keeps Held (eval_rgw_5xx s rule)
    unfolding eval_rgw_5xx
    eval_rgw_5xx-Held = rgw_with-Held s.settings

    audit_with-Held :
        (actions : List String) (failure_only : Bool) (c : Option Client)
        → Keeps Held (audit_with s rule actions failure_only c)
    audit_with-Held actions failure_only none = Keeps-pure _
    audit_with-Held actions failure_only (some c) =
        search (keeps_rules, Keeps-on_remote, judge_window-Held) depth 20

    eval_audit_rate-Held :
        (actions : List String) (failure_only : Bool)
        → Keeps Held (eval_audit_rate s rule actions failure_only)
    unfolding eval_audit_rate
    eval_audit_rate-Held actions failure_only =
        audit_with-Held actions failure_only s.evaluator.project

  eval_rule-Held :
      (usage : List UsageBucket) (rule : AlertRow) → Keeps Held (eval_rule s usage rule)
  unfolding eval_rule
  eval_rule-Held usage rule =
      search
        (
          Keeps-if,
          Keeps-pure,
          eval_tenant_quota-Held s,
          eval_bucket_capacity-Held s,
          eval_rgw_5xx-Held,
          eval_audit_rate-Held,
        )
        depth 40

  eval_rules-Held :
      (usage : List UsageBucket) (rules : List AlertRow) → Keeps Held (eval_rules s usage rules)
  unfolding eval_rules
  eval_rules-Held usage [] = Keeps-pure _
  eval_rules-Held usage (rule ∷ rules) =
      Keeps-bind _ _ (eval_rule-Held usage rule)
        λ here. Keeps-bind _ _ (eval_rules-Held usage rules) λ others. Keeps-pure _

  load_usage-Held : (c : Option Client) → Keeps Held (load_usage s c)
  unfolding load_usage
  load_usage-Held none = Keeps-pure _
  load_usage-Held (some c) = search (keeps_rules, Keeps-on_remote) depth 20

  list_enabled_alerts-Kept : Keeps Kept list_enabled_alerts
  unfolding list_enabled_alerts
  list_enabled_alerts-Kept = Keeps-query _

  pub run-Held : Keeps Held (run s)
  unfolding run
  run-Held = Keeps-bind _ _ (Keeps-guard s.store _) λ _.
      Keeps-bind _ _ (Keeps-on_db _ list_enabled_alerts-Kept) λ rules.
        Keeps-bind _ _ (load_usage-Held s.evaluator.project)
          λ usage. Keeps-bind _ _ (eval_rules-Held usage rules) λ counts. Keeps-pure _
