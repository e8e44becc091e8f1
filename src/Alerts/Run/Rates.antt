-- ===== src/Alerts/Run/Rates.antt =====
-- internal/alerts/evaluate.go: `evalRGW5xx` and `evalAuditRate`.
use Prim.Native.String.{◌++◌}
use osspilot_ops_api.Common.{
  String, Bool, ◌&&◌, Option, none, some, List, [], ◌∷◌, ◌==◌, if◌then◌else◌,
}
use osspilot_ops_api.Common.Int.{ℤ, pos, leb_int, is_positive}
use osspilot_ops_api.Common.Decimal.{format_int}
use osspilot_ops_api.Common.Strings.{join}
use osspilot_ops_api.Action.{Result, ok, err, Action, attempt, ◌>>=◌, pure}
use osspilot_ops_api.Database.{DbError}
use osspilot_ops_api.Schema.Alerts.{AlertRow}
use osspilot_ops_api.Project.{Client, CallError}
use osspilot_ops_api.Project.Usage.{AuditWindow, audit_window}
use osspilot_ops_api.Project.World.{World, on_db, on_remote}
use osspilot_ops_api.Settings.{SettingsHandler, Runtime, runtime}
use osspilot_ops_api.TenantRbac.Remap.{Json}
use osspilot_ops_api.Ceph.{fetch, error_rate}
use osspilot_ops_api.Alerts.Run.Numbers.{reaches, config_float}
use osspilot_ops_api.Alerts.Run.{
  Sources, Detail, float, int, Counts, percent_text, fire_counted, resolve_whole, whole,
}

module _ {R W : Type 0} (s : Sources R W) (rule : AlertRow) where
  abbrev pub rgw_threshold : W
  rgw_threshold = config_float s.double s.codec rule.config "error_rate" (s.double.decimal 5 2)

  unfoldable pub judge_rate : Option W → Action (World R) DbError Counts
  judge_rate none = resolve_whole s rule
  judge_rate (some rate) =
      if reaches s.double rate rgw_threshold
      then fire_counted s rule (whole s) rule.name
          ("RGW 5xx 错误率 " ++ (percent_text s 2 rate ++ ("，阈值 " ++ percent_text s 2 rgw_threshold)))
          (("error_rate", float rate) ∷ [])
      else resolve_whole s rule

  abbrev pub judge_payload : Result String Json → Action (World R) DbError Counts
  judge_payload (err e) = resolve_whole s rule
  judge_payload (ok payload) = judge_rate (error_rate s.double.parse payload)

  abbrev pub judge_url : String → Action (World R) DbError Counts
  judge_url url = if url == "" then resolve_whole s rule else (do
    payload ← attempt (on_remote (fetch s.ceph s.codec url "/rgw/stats"))
    judge_payload payload)

  abbrev pub judge_runtime : Result DbError Runtime → Action (World R) DbError Counts
  judge_runtime (err e) = resolve_whole s rule
  judge_runtime (ok rt) = judge_url rt.ceph_mgmt_api_url

  abbrev pub rgw_with : Option (SettingsHandler R) → Action (World R) DbError Counts
  rgw_with none = resolve_whole s rule
  rgw_with (some h) = do rt ← attempt (on_db (runtime h)); judge_runtime rt

  -- `evalRGW5xx`
  unfoldable pub eval_rgw_5xx : Action (World R) DbError Counts
  eval_rgw_5xx = rgw_with s.settings

  abbrev at_least_1 : ℤ → ℤ
  at_least_1 n = if is_positive n then n else pos 60

  -- The window in minutes
  abbrev pub window : ℤ
  window = at_least_1 (
      s.double.to_int
        (config_float s.double s.codec rule.config "window_minutes" (s.double.decimal 60 0)))

  module _ (actions : List String) (failure_only : Bool) where
    -- `%v` of the actions
    abbrev actions_text : String
    actions_text = "[" ++ (join actions " " ++ "]")

    abbrev window_text : String
    window_text = "近 " ++ (format_int window ++ (" 分钟 " ++ actions_text))

    abbrev rate_of : AuditWindow → W
    rate_of win =
        if is_positive win.total
        then s.double.div (s.double.of_int win.failures) (s.double.of_int win.total)
        else s.double.decimal 0 0

    abbrev count_threshold : ℤ
    count_threshold =
        s.double.to_int
          (config_float s.double s.codec rule.config "count_threshold" (s.double.decimal 50 0))

    -- Whether the window is over the threshold
    unfoldable pub exceeds : AuditWindow → Bool
    unfolding config_float
    exceeds win =
        if failure_only
        then is_positive win.total
          && reaches s.double (rate_of win)
              (config_float s.double s.codec rule.config "failure_rate" (s.double.decimal 1 1))
        else leb_int count_threshold win.total

    abbrev rate_message : AuditWindow → String
    rate_message win =
        if failure_only
        then window_text
          ++ (" 失败率 "
              ++ (percent_text s 1 (rate_of win)
                  ++ ("（" ++ (format_int win.failures ++ ("/" ++ (format_int win.total ++ "）"))))))
        else window_text
          ++ (" 操作 " ++ (format_int win.total ++ (" 次，超过阈值 " ++ format_int count_threshold)))

    abbrev rate_details : AuditWindow → List (String × Detail W)
    rate_details win =
        if failure_only
        then ("failure_rate", float (rate_of win))
          ∷ ("total", int win.total)
          ∷ ("failures", int win.failures)
          ∷ []
        else ("count", int win.total) ∷ ("window_minutes", int window) ∷ []

    abbrev pub judge_window : Result CallError AuditWindow → Action (World R) DbError Counts
    judge_window (err e) = pure (0, 0)
    judge_window (ok win) =
        if exceeds win
        then fire_counted s rule (whole s) rule.name (rate_message win) (rate_details win)
        else resolve_whole s rule

    abbrev pub audit_with : Option Client → Action (World R) DbError Counts
    audit_with none = pure (0, 0)
    audit_with (some c) = do
      win ←
          attempt (on_remote (audit_window s.evaluator.net s.decode_window (some c) window actions))
      judge_window win

    -- `evalAuditRate`
    unfoldable pub eval_audit_rate : Action (World R) DbError Counts
    eval_audit_rate = audit_with s.evaluator.project
