-- ===== src/Project/Usage.antt =====
-- internal/project/client.go: `GetUsage` and `AuditWindow`. What `encoding/json` reads of a body is a
-- parameter.
use Prim.Native.String
use osspilot_ops_api.Common.{String, Option, none, some, List}
use osspilot_ops_api.Common.Int.{ℤ, pos}
use osspilot_ops_api.Common.Decimal.{format_int}
use osspilot_ops_api.Common.Strings.{join}
use osspilot_ops_api.Action.{Action, pure, stop}
use osspilot_ops_api.Project.{Network, Client, CallError, http_error, nothing, do_json}

pub record UsageBucket : Type 0 where
  pub bucket_name : String
  pub used_bytes : ℤ
  pub object_count : ℤ
  pub collected_at : Option String

pub record AuditWindow : Type 0 where
  pub total : ℤ
  pub failures : ℤ

module _ {R : Type 0} (net : Network R) (decode : String → Option (List UsageBucket)) where
  -- `GetUsage`, the buckets of its answer, which are none where the field is missing
  unfoldable pub get_usage : Option Client → Action R CallError (List UsageBucket)
  unfolding do_json
  get_usage none = stop (http_error 503 "tenant projection is not configured")
  get_usage (some c) = do_json net decode c "GET" "/internal/stats/usage" nothing

module _ {R : Type 0} (net : Network R) (decode : String → Option AuditWindow) where
  abbrev window_path : ℤ → List String → String
  window_path minutes actions = String.◌++◌ "/internal/stats/audit-window?minutes=" (
      String.◌++◌ (format_int minutes)
        (String.◌++◌ "&actions=" (net.query_escape (join actions ","))))

  -- `AuditWindow`
  unfoldable pub audit_window : Option Client → ℤ → List String → Action R CallError AuditWindow
  unfolding do_json
  audit_window none minutes actions = pure (record { total = pos 0; failures = pos 0 })
  audit_window (some c) minutes actions =
      do_json net decode c "GET" (window_path minutes actions) nothing
