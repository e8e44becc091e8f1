-- ===== src/Alerts/Run/Rules.antt =====
-- internal/alerts/evaluate.go: `Run` over the rules, and `evaluate` of internal/alerts/handler.go.
pub mod Held
use osspilot_ops_api.Common.{
  ℕ, ◌+◌, String, true, false, ◌||◌, Option, none, some, List, [], ◌∷◌, length, ◌==◌, if◌then◌else◌,
}
use osspilot_ops_api.Action.{Action, attempt, ◌>>=◌, ◌>>◌, pure, guard}
use osspilot_ops_api.Database.{DbError, broken}
use osspilot_ops_api.Http.{Response, json, error, Handler, database, reply}
use osspilot_ops_api.Schema.Alerts.{AlertRow}
use osspilot_ops_api.Project.{Client}
use osspilot_ops_api.Project.Usage.{UsageBucket, get_usage}
use osspilot_ops_api.Project.World.{World, on_db, on_remote}
use osspilot_ops_api.Alerts.Rows.{list_enabled_alerts}
use osspilot_ops_api.Alerts.Run.{Sources, Counts, usage_or_none}
use osspilot_ops_api.Alerts.Run.Usage.{eval_tenant_quota, eval_bucket_capacity}
use osspilot_ops_api.Alerts.Run.Rates.{eval_rgw_5xx, eval_audit_rate}

abbrev downloads : List String
downloads = "download" ∷ "download_object" ∷ "presign_download" ∷ []

-- The answer of `evaluate`
pub record RunCounts : Type 0 where
  pub evaluated : ℕ
  pub created : ℕ
  pub resolved : ℕ

module _ {R W : Type 0} (s : Sources R W) where
  -- The `switch` of `Run`
  unfoldable pub eval_rule : List UsageBucket → AlertRow → Action (World R) DbError Counts
  eval_rule usage rule =
      let kind = rule.rule_type in
      if kind == "tenant_quota_exceeded"
      then eval_tenant_quota s rule usage
      else if kind == "bucket_capacity_80" || kind == "bucket_capacity_90"
      then eval_bucket_capacity s rule usage
      else if kind == "rgw_5xx_rate"
      then eval_rgw_5xx s rule
      else if kind == "upload_failure_rate"
      then eval_audit_rate s rule ("upload" ∷ "upload_object" ∷ "complete_multipart_upload" ∷ [])
          true
      else if kind == "download_failure_rate"
      then eval_audit_rate s rule downloads true
      else if kind == "frequent_delete"
      then eval_audit_rate s rule ("delete" ∷ "delete_object" ∷ "batch_delete" ∷ []) false
      else if kind == "frequent_download"
      then eval_audit_rate s rule
          ("download" ∷ "download_object" ∷ "presign_download" ∷ "batch_download" ∷ []) false
      else if kind == "edit_save_failure"
      then eval_audit_rate s rule ("save_text_edit" ∷ "save_office_edit" ∷ []) true
      else if kind == "audit_write_failure"
      then eval_audit_rate s rule ("audit_log" ∷ []) true
      else pure (0, 0)

  -- The loop of `Run`
  unfoldable pub eval_rules : List UsageBucket → List AlertRow → Action (World R) DbError Counts
  eval_rules usage [] = pure (0, 0)
  eval_rules usage (rule ∷ rules) = do
    here ← eval_rule usage rule
    others ← eval_rules usage rules
    pure (here.0 + others.0, here.1 + others.1)

  -- `loadUsage`, where no client and an error give no usage
  unfoldable pub load_usage : Option Client → Action (World R) DbError (List UsageBucket)
  load_usage none = pure []
  load_usage (some c) = do
    found ← attempt (on_remote (get_usage s.evaluator.net s.decode_usage (some c)))
    pure (usage_or_none found)

  -- `Run`; a missing store is one of its errors.
  unfoldable pub run : Action (World R) DbError RunCounts
  run = do
    guard s.store broken
    rules ← on_db list_enabled_alerts
    usage ← load_usage s.evaluator.project
    (created, resolved) ← eval_rules usage rules
    pure (record { evaluated = length rules; created = created; resolved = resolved })

  -- `evaluate`
  unfoldable pub evaluate : Handler (World R) RunCounts (Response RunCounts)
  evaluate = do
    guard s.store (reply (error 503 "database is not configured"))
    counts ← database run
    pure (json 200 counts)
