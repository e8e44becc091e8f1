-- ===== src/Alerts/Changes.antt =====
-- internal/alerts/handler.go: the requests that write rules and channels
use Prim.Native.String.{len}
use osspilot_ops_api.Common.{ℕ, ltb, leb, String, Bool, true, false, not, ◌||◌, ◌==◌, if◌then◌else◌}
use osspilot_ops_api.Common.Text.{trim_space}
use osspilot_ops_api.Action.{ok, ◌>>=◌, ◌>>◌, pure, guard, require}
use osspilot_ops_api.Http.{Response, error, json, reply, panic, Handler, database}
use osspilot_ops_api.Schema.{Store}
use osspilot_ops_api.Schema.Alerts.{AlertRow, ChannelRow}
use osspilot_ops_api.Auth.{Request}
use osspilot_ops_api.Alerts.{
  Json, as_object, RuleReq, ChannelReq, AlertBody, rule_item, channel_item, ready, path_id, or_400,
  flag_or, ids_or, some_or, text_or, load_rule,
}
use osspilot_ops_api.Alerts.Rows.{
  insert_alert, update_alert, get_channel, insert_channel, update_channel,
}
use osspilot_ops_api.Alerts.Valid.{valid_rule_type, valid_severity, valid_channel}

-- The literal `Rule{…}` of `createRule`, and the id that the table gives it
abbrev pub new_rule : Json → RuleReq → String → ℕ → ℕ → AlertRow
new_rule j req severity at id = record {
  id = id;
  name = trim_space req.name;
  rule_type = req.rule_type;
  enabled = flag_or req.enabled true;
  severity = severity;
  config = req.config;
  channel_ids = ids_or j req.channel_ids "[]";
  notify_tenant = flag_or req.notify_tenant false;
  description = req.description;
  created_at = at;
  updated_at = at;
}

abbrev pub new_channel : ChannelReq → ℕ → ℕ → ChannelRow
new_channel req at id = record {
  id = id;
  name = trim_space req.name;
  channel_type = req.channel_type;
  enabled = flag_or req.enabled true;
  config = req.config;
  created_at = at;
  updated_at = at;
}

-- `name == "" || len(name) > 128`
unfoldable pub bad_name : String → Bool
bad_name name = name == "" || ltb 128 (len name)

module _ (j : Json) (store : Bool) where
  -- `createRule`
  unfoldable pub create_rule : Request RuleReq → Handler Store AlertBody (Response AlertBody)
  create_rule r = do
    ready store
    req ← require (reply (error 400 "invalid json")) r.body
    guard (not (bad_name (trim_space req.name))) (reply (error 400 "name is required"))
    or_400 (valid_rule_type req.rule_type)
    let severity = text_or req.severity "warning"
    or_400 (valid_severity severity)
    inserted ← database (insert_alert j.jsonb (new_rule j req severity r.now))
    item ← require panic inserted
    pure (json 201 (rule_item item))

  -- The tests of `updateRule` where the fields are set
  unfoldable pub check_update : RuleReq → Handler Store AlertBody Unit
  check_update req = do
    guard (req.name == "" || leb (len req.name) 128) (reply (error 400 "name is required"))
    or_400 (if req.severity == "" then ok tt else valid_severity req.severity)

  abbrev pub edited_rule : RuleReq → AlertRow → AlertRow
  edited_rule req item = record item {
    name = if req.name == "" then item.name else trim_space req.name;
    enabled = flag_or req.enabled item.enabled;
    severity = text_or req.severity item.severity;
    config = text_or req.config item.config;
    channel_ids = ids_or j req.channel_ids item.channel_ids;
    notify_tenant = flag_or req.notify_tenant item.notify_tenant;
    description = some_or req.description item.description;
  }

  -- `updateRule`. `*out` panics where the row is gone.
  unfoldable pub update_rule : Request RuleReq → Handler Store AlertBody (Response AlertBody)
  update_rule r = do
    item ← load_rule store r
    req ← require (reply (error 400 "invalid json")) r.body
    check_update req
    written ← database (update_alert j.jsonb (edited_rule req item) r.now)
    out ← require panic written
    pure (json 200 (rule_item out))

  -- `createChannel`
  unfoldable pub create_channel : Request ChannelReq → Handler Store AlertBody (Response AlertBody)
  create_channel r = do
    ready store
    req ← require (reply (error 400 "invalid json")) r.body
    guard (not (bad_name (trim_space req.name))) (reply (error 400 "name is required"))
    or_400 (valid_channel (as_object j req.config) req.channel_type)
    inserted ← database (insert_channel j.jsonb (new_channel req r.now))
    item ← require panic inserted
    pure (json 201 (channel_item item))

  abbrev pub edited_channel : ChannelReq → ChannelRow → ChannelRow
  edited_channel req item = record item {
    name = if req.name == "" then item.name else trim_space req.name;
    enabled = flag_or req.enabled item.enabled;
    config = text_or req.config item.config;
  }

  -- `updateChannel`
  unfoldable pub change_channel : Request ChannelReq → Handler Store AlertBody (Response AlertBody)
  change_channel r = do
    ready store
    id ← path_id r "channel_id"
    found ← database (get_channel id)
    item ← require (reply (error 404 "Notification channel not found")) found
    req ← require (reply (error 400 "invalid json")) r.body
    or_400 (
        if req.config == ""
        then ok tt
        else valid_channel (as_object j req.config) item.channel_type)
    written ← database (update_channel j.jsonb (edited_channel req item) r.now)
    out ← require panic written
    pure (json 200 (channel_item out))
