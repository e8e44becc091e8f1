-- ===== src/Alerts/Tests.antt =====
-- internal/alerts at concrete requests.
use osspilot_ops_api.Common.{
  ℕ, String, ◌≡◌, refl, true, false, Option, none, some, List, [], ◌∷◌, map, All, ◌==◌,
  if◌then◌else◌,
}
use osspilot_ops_api.Common.Text.{trim_space}
use osspilot_ops_api.Common.Decimal.{parse_id}
use osspilot_ops_api.Database.{exec, query}
use osspilot_ops_api.Action.{ok}
use osspilot_ops_api.Http
use osspilot_ops_api.Http.{Response}
use osspilot_ops_api.Schema.{empty_tables, Store}
use osspilot_ops_api.Schema.Ops.{OpsUser}
use osspilot_ops_api.Schema.Alerts.{EventRow, AlertRow}
use osspilot_ops_api.Auth.{Request}
use osspilot_ops_api.Auth.Accounts.{User}
use osspilot_ops_api.Alerts.{
  Json, RuleReq, AlertBody, event_items, list_event_items, query_number, query_tenant, ack, resolve,
  load_rule, load_event, ready, path_id,
}
use osspilot_ops_api.Alerts.Changes.{update_rule, check_update}
use osspilot_ops_api.Alerts.Rows.{
  get_alert, update_alert, update_alert_row, write_alert, alert_fits, nz_json,
}
use osspilot_ops_api.Alerts.Events.{
  acknowledge, acknowledge_rows, resolve_event, resolve_rows, get_event, list_events, page_of,
  offset, order_events, insert_event_by_time,
}
use osspilot_ops_api.Alerts.Bounds.{asked_tenant, IsPage, list_event_items_bound}
use osspilot_ops_api.Alerts.Statuses.{
  HasStatus, Forward, Reach, here, next, acknowledges, resolves, Reach-Forward, Reach-HasStatus,
}

abbrev event : EventRow
event = record {
  id = 1;
  rule_id = some 1;
  rule_type = "rgw_5xx_rate";
  severity = "warning";
  status = "firing";
  title = "RGW";
  message = "";
  tenant_id = none;
  bucket_id = none;
  bucket_name = none;
  details = "{}";
  notify_tenant = false;
  fired_at = 10;
  acknowledged_at = none;
  acknowledged_by = none;
  resolved_at = none;
  created_at = 10;
}

abbrev pub rule : AlertRow
rule = record {
  id = 1;
  name = "RGW";
  rule_type = "rgw_5xx_rate";
  enabled = true;
  severity = "warning";
  config = "{}";
  channel_ids = "[]";
  notify_tenant = false;
  description = none;
  created_at = 1;
  updated_at = 1;
}

abbrev operator : OpsUser
operator = record {
  id = 1;
  username = "root";
  password_hash = "h";
  display_name = none;
  email = none;
  phone = none;
  status = "active";
  must_change_password = false;
  last_login_at = none;
  created_at = 1;
  updated_at = 1;
}

abbrev pub start : Store
start = record {
  tables = record empty_tables {
    ops = record empty_tables.ops { users = operator ∷ [] };
    alerts = record empty_tables.alerts { alert_rules = rule ∷ []; events = event ∷ [] };
  };
  faults = [];
}

abbrev pub json : Json
json = record { jsonb = λ s. some s; decode_object = λ s. none; marshal_ids = λ ids. "[]" }

abbrev request : {Q : Type 0} → ℕ → Option Q → Request Q
request now body = record {
  path = "";
  authorization = "";
  path_value = λ name. "1";
  body = body;
  origin = record { source_ip = none; user_agent = none };
  now = now;
  salt = 0;
}

abbrev user : User
user = record {
  id = 1;
  username = "root";
  password_hash = "h";
  display_name = none;
  email = none;
  phone = none;
  status = "active";
  roles = "platform_admin" ∷ [];
  last_login_at = none;
  must_change_password = false;
}

code : Unit {0}
unfolding ack resolve update_rule load_rule load_event check_update ready path_id trim_space
    parse_id get_alert update_alert update_alert_row write_alert alert_fits nz_json acknowledge
    acknowledge_rows resolve_event resolve_rows get_event exec query Forward
code = tt

abbrev acknowledged : Store
acknowledged = (ack true {Q = Unit} (request 20 none) user start).1

abbrev resolved : Store
resolved = (resolve true {Q = Unit} (request 30 none) acknowledged).1

abbrev statuses : Store → List String
statuses s = map (λ (e : EventRow). e.status) s.tables.alerts.events

resolved_event : statuses resolved ≡ "resolved" ∷ []
unfolding code
resolved_event = refl

-- A resolved event is not acknowledged.
too_late : statuses (ack true {Q = Unit} (request 40 none) user resolved).1 ≡ "resolved" ∷ []
unfolding code
too_late = refl

abbrev blank_name : RuleReq
blank_name = record {
  name = "  ";
  rule_type = "";
  enabled = none;
  severity = "";
  config = "";
  channel_ids = none;
  notify_tenant = none;
  description = none;
}

-- `updateRule` trims the name after its test: a rule is left without a name.
nameless_rule :
    map
      (λ (r : AlertRow). r.name)
      (update_rule json true (request 20 (some blank_name)) start).1.tables.alerts.alert_rules
    ≡ "" ∷ []
unfolding code
nameless_rule = refl

abbrev path_to_resolved : Reach json true start resolved
path_to_resolved =
    next (next here (acknowledges (request 20 none) user refl)) (resolves (request 30 none) refl)

Reach-Forward_example : Forward start.tables.alerts.events resolved.tables.alerts.events
Reach-Forward_example = Reach-Forward json true path_to_resolved

Reach-HasStatus_example : All HasStatus resolved.tables.alerts.events
Reach-HasStatus_example = Reach-HasStatus json true path_to_resolved (refl, tt)

-- The firing events of the tenant 3
abbrev asked : String → String
asked name = if name == "status" then "firing" else if name == "tenant_id" then "3" else ""

abbrev of_tenant : EventRow
of_tenant = record event { id = 2; tenant_id = some 3; fired_at = 12; created_at = 12 }

abbrev of_other : EventRow
of_other = record event { id = 3; tenant_id = some 4 }

abbrev closed : EventRow
closed = record event { id = 4; tenant_id = some 3; status = "resolved" }

abbrev four_events : Store
four_events = record start {
  tables = record start.tables {
    alerts = record start.tables.alerts { events = event ∷ of_tenant ∷ of_other ∷ closed ∷ [] };
  };
}

abbrev one_event : Response AlertBody
one_event = Http.json 200 (event_items (of_tenant ∷ []) 1)

answered_page :
    (list_event_items true {Q = Unit} (request 20 none) asked four_events).0 ≡ ok one_event
unfolding code list_event_items query_number query_tenant list_events page_of offset order_events
    insert_event_by_time
answered_page = refl

list_event_items_bound_example :
    IsPage (asked "status") (asked_tenant (asked "tenant_id")) 100 one_event
list_event_items_bound_example =
    list_event_items_bound true {Q = Unit} (request 20 none) asked four_events one_event
      answered_page
