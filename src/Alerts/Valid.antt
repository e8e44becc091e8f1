-- ===== src/Alerts/Valid.antt =====
-- internal/alerts/validate.go. A decoded JSON object is a parameter, since encoding/json makes it.
use osspilot_ops_api.Common.{
  String, ◌||◌, Option, none, some, List, [], ◌∷◌, any, ◌==◌, if◌then◌else◌,
}
use osspilot_ops_api.Common.Text.{trim_space}
use osspilot_ops_api.Action.{Result, ok, err}
use Prim.Native.String

-- The keys of `ruleTypes`
abbrev pub rule_types : List String
rule_types =
    "bucket_capacity_80" ∷ "bucket_capacity_90" ∷ "tenant_quota_exceeded" ∷ "rgw_5xx_rate"
    ∷ "upload_failure_rate" ∷ "download_failure_rate" ∷ "frequent_delete" ∷ "frequent_download"
    ∷ "edit_save_failure" ∷ "audit_write_failure" ∷ []

-- `channelTypes`: the key that a type of channel needs
unfoldable pub channel_key : String → Option String
channel_key channel_type =
    if channel_type == "email"
    then some "recipients"
    else if channel_type == "webhook"
    then some "url"
    else if channel_type == "wecom"
    then some "webhook_url"
    else if channel_type == "feishu"
    then some "webhook_url"
    else if channel_type == "alertmanager"
    then some "url"
    else none

-- `validRuleType`
unfoldable pub valid_rule_type : String → Result String Unit
valid_rule_type s = if any (λ known. s == known) rule_types then ok tt else err "unknown rule_type"

-- `validSeverity`
unfoldable pub valid_severity : String → Result String Unit
valid_severity s =
    if s == "warning" || s == "critical" then ok tt else err "severity must be warning or critical"

-- A value of a decoded object as the tests read it
pub data Value : Type 0 where
  null other : Value
  text : String → Value

module _ (config : String → Option Value) (channel_type : String) where
  abbrev required : String → String
  required key = String.◌++◌ channel_type (String.◌++◌ " channel requires config." key)

  abbrev check_value : String → Option Value → Result String Unit
  check_value key none = err (required key)
  check_value key (some null) = err (required key)
  check_value key (some other) = ok tt
  check_value key (some (text s)) = if trim_space s == "" then err (required key) else ok tt

  abbrev check_key : Option String → Result String Unit
  check_key none = err "unknown channel_type"
  check_key (some key) = check_value key (config key)

  -- `validChannel` on the object of `asObject`, which is never nil
  unfoldable pub valid_channel : Result String Unit
  unfolding channel_key trim_space
  valid_channel = check_key (channel_key channel_type)
