-- ===== src/Alerts.antt =====
-- internal/alerts/handler.go: reading rules and channels, and the events. The answers are the rows; their
-- JSON is left to the encoder.
pub mod Rows
pub mod Events
pub mod Valid
pub mod Changes
pub mod Keeps
pub mod Statuses
pub mod Unique
pub mod Dispatch
pub mod Evaluate
pub mod Run
pub mod Sending
pub mod Firing
pub mod Course
pub mod Bounds
mod Tests
use Prim.Native.String
use Prim.Native.String.{len}
use osspilot_ops_api.Common.{
  ℕ, ltb, leb, ◌-◌, ◌^◌, String, Bool, true, false, not, ◌&&◌, ◌||◌, Option, none, some, List, [],
  ◌∷◌, length, ◌==◌, if◌then◌else◌,
}
use osspilot_ops_api.Common.Int.{ℤ}
use osspilot_ops_api.Common.Text.{trim_space}
use osspilot_ops_api.Common.Decimal.{parse_id}
use osspilot_ops_api.Action.{
  Result, ok, err, Action, attempt, ◌>>=◌, ◌>>◌, pure, guard, require, stop,
}
use osspilot_ops_api.Database.{DbError}
use osspilot_ops_api.Http.{
  Response, error, json, no_content, Exit, reply, panic, Handler, refuse, database,
}
use osspilot_ops_api.Schema.{Store}
use osspilot_ops_api.Schema.Alerts.{AlertRow, ChannelRow, EventRow}
use osspilot_ops_api.Auth.{Request}
use osspilot_ops_api.Auth.Accounts.{User}
use Rows.{
  list_alerts, get_alert, insert_alert, update_alert, delete_alert, list_channels, get_channel,
  insert_channel, update_channel, delete_channel,
}
use Events.{list_events, recent_events, get_event, acknowledge, resolve_event}
use Valid.{Value, valid_rule_type, valid_severity, valid_channel}

-- encoding/json on the texts of the columns, and the columns themselves
pub record Json : Type 0 where
  -- How the database stores a JSON text: `none` where it is not one
  pub jsonb : String → Option String
  -- `json.Unmarshal` into a map: `none` for an error and for null
  pub decode_object : String → Option (String → Option Value)
  -- `json.Marshal` of numbers
  pub marshal_ids : List ℤ → String

abbrev or_empty : Option (String → Option Value) → String → Option Value
or_empty none key = none
or_empty (some object) key = object key

-- `asObject`
unfoldable pub as_object : Json → String → String → Option Value
as_object j raw = if raw == "" then (λ key. none) else or_empty (j.decode_object raw)

-- `ruleReq`
pub record RuleReq : Type 0 where
  pub name : String
  pub rule_type : String
  pub enabled : Option Bool
  pub severity : String
  pub config : String
  pub channel_ids : Option (List ℤ)
  pub notify_tenant : Option Bool
  pub description : Option String

-- `channelReq`
pub record ChannelReq : Type 0 where
  pub name : String
  pub channel_type : String
  pub enabled : Option Bool
  pub config : String

pub data AlertBody : Type 0 where
  rule_items : List AlertRow → AlertBody
  rule_item : AlertRow → AlertBody
  channel_items : List ChannelRow → AlertBody
  channel_item : ChannelRow → AlertBody
  event_items : List EventRow → ℕ → AlertBody
  event_item : EventRow → AlertBody

-- `ready`: whether there is a store
unfoldable pub ready : Bool → Handler Store AlertBody Unit
ready store = guard store (reply (error 503 "database is not configured"))

-- `pathID`
unfoldable pub path_id : {Q : Type 0} → Request Q → String → Handler Store AlertBody ℕ
path_id r name =
    require (reply (error 400 (String.◌++◌ "invalid " name))) (parse_id (r.path_value name))

abbrev pub or_400 : Result String Unit → Handler Store AlertBody Unit
or_400 (ok _) = pure tt
or_400 (err detail) = refuse 400 detail

abbrev pub flag_or : Option Bool → Bool → Bool
flag_or none old = old
flag_or (some b) old = b

abbrev pub ids_or : Json → Option (List ℤ) → String → String
ids_or j none old = old
ids_or j (some ids) old = j.marshal_ids ids

abbrev pub some_or : Option String → Option String → Option String
some_or none old = old
some_or (some s) old = some s

abbrev pub text_or : String → String → String
text_or s old = if s == "" then old else s

-- `pathID` and `GetRule` of `loadRule`, `GetEvent` of `loadEvent`
module _ (store : Bool) {Q : Type 0} (r : Request Q) where
  -- `loadRule`
  unfoldable pub load_rule : Handler Store AlertBody AlertRow
  load_rule = do
    ready store
    id ← path_id r "rule_id"
    found ← database (get_alert id)
    require (reply (error 404 "Alert rule not found")) found

  -- `loadEvent`
  unfoldable pub load_event : Handler Store AlertBody EventRow
  load_event = do
    ready store
    id ← path_id r "event_id"
    found ← database (get_event id)
    require (reply (error 404 "Alert event not found")) found

  -- `listRules`
  unfoldable pub list_rules : Handler Store AlertBody (Response AlertBody)
  list_rules = do ready store; items ← database list_alerts; pure (json 200 (rule_items items))

  -- `getRule`
  unfoldable pub get_rule : Handler Store AlertBody (Response AlertBody)
  get_rule = do item ← load_rule; pure (json 200 (rule_item item))

  -- `deleteRule`
  unfoldable pub delete_rule : Handler Store AlertBody (Response AlertBody)
  delete_rule = do
    ready store
    id ← path_id r "rule_id"
    affected ← database (delete_alert id)
    guard affected (reply (error 404 "Alert rule not found"))
    pure no_content

  -- `listChannels`
  unfoldable pub list_channel_items : Handler Store AlertBody (Response AlertBody)
  list_channel_items = do
    ready store
    items ← database list_channels
    pure (json 200 (channel_items items))

  -- `deleteChannel`
  unfoldable pub remove_channel : Handler Store AlertBody (Response AlertBody)
  remove_channel = do
    ready store
    id ← path_id r "channel_id"
    affected ← database (delete_channel id)
    guard affected (reply (error 404 "Notification channel not found"))
    pure no_content

  abbrev pub bounded : ℕ → String → Option ℕ → Handler Store AlertBody ℕ
  bounded limit detail none = refuse 400 detail
  bounded limit detail (some n) = do guard (leb n limit) (reply (error 400 detail)); pure n

  -- `strconv.Atoi` of a query value, at least 1 and at most the limit where it is given
  unfoldable pub query_number : String → ℕ → ℕ → String → Handler Store AlertBody ℕ
  query_number raw default limit detail =
      if raw == "" then pure default else bounded limit detail (parse_id raw)

  abbrev pub some_id : Option ℕ → Handler Store AlertBody (Option ℕ)
  some_id none = refuse 400 "tenant_id must be a positive integer"
  some_id (some id) = pure (some id)

  unfoldable pub query_tenant : String → Handler Store AlertBody (Option ℕ)
  query_tenant raw = if raw == "" then pure none else some_id (parse_id raw)

  -- `listEvents`, where `query_value` is `r.URL.Query().Get`
  unfoldable pub list_event_items : (String → String) → Handler Store AlertBody (Response AlertBody)
  list_event_items query_value = do
    ready store
    page ← query_number (query_value "page") 1 (2 ^ 63 - 1) "page must be >= 1"
    page_size ← query_number (query_value "page_size") 20 100 "page_size must be 1-100"
    tenant_id ← query_tenant (query_value "tenant_id")
    out ← database (list_events (query_value "status") tenant_id page page_size)
    pure (json 200 (event_items out.0 out.1))

  -- `recent`
  unfoldable pub recent : (String → String) → Handler Store AlertBody (Response AlertBody)
  recent query_value = do
    ready store
    limit ← query_number (query_value "limit") 5 20 "limit must be 1-20"
    items ← database (recent_events limit)
    pure (json 200 (event_items items (length items)))

  -- `if err != nil || out == nil { … "database error" … }`
  abbrev pub or_gone : Result DbError (Option EventRow) → Handler Store AlertBody EventRow
  or_gone (ok (some e)) = pure e
  or_gone (ok none) = refuse 500 "database error"
  or_gone (err e) = refuse 500 "database error"

  -- `ack`
  unfoldable pub ack : User → Handler Store AlertBody (Response AlertBody)
  ack user = do
    ev ← load_event
    guard (not (ev.status == "resolved")) (reply (error 400 "Alert already resolved"))
    outcome ← attempt (acknowledge ev.id user.id r.now)
    out ← or_gone outcome
    pure (json 200 (event_item out))

  -- `resolve`
  unfoldable pub resolve : Handler Store AlertBody (Response AlertBody)
  resolve = do
    ev ← load_event
    outcome ← attempt (resolve_event ev.id r.now)
    out ← or_gone outcome
    pure (json 200 (event_item out))
