-- ===== src/Alerts/Evaluate.antt =====
-- internal/alerts/evaluate.go: firing, resolving and projecting events.
use Prim.Native.String
use osspilot_ops_api.Common.{
  ℕ, eqb, String, Bool, true, false, ◌&&◌, Option, none, some, List, [], ◌∷◌, ◌+◌, first, any, ltb,
  ◌==◌, if◌then◌else◌,
}
use osspilot_ops_api.Common.Decimal.{format_ℕ}
use osspilot_ops_api.Action.{Result, ok, err, Action, attempt, ◌>>=◌, ◌>>◌, pure}
use osspilot_ops_api.Database.{DbError, query}
use osspilot_ops_api.Schema.{Store}
use osspilot_ops_api.Schema.Tenants.{AccountRow}
use osspilot_ops_api.Schema.Alerts.{AlertRow, EventRow}
use osspilot_ops_api.Accounts.Rows.{by_account}
use osspilot_ops_api.Project.{Network, Client, AlertEvent, put_alert}
use osspilot_ops_api.Project.World.{World, on_db, on_remote}
use osspilot_ops_api.Alerts.Events.{has_open_event, insert_event, list_open_by_rule, resolve_open}
use osspilot_ops_api.Alerts.Dispatch.{Poster, dispatch}
use osspilot_ops_api.Alerts.{Json}

-- `Evaluator`: its client of the tenant API, whether it has the statistics, and the libraries
pub record Evaluator (R : Type 0) : Type 0 where
  pub net : Network R
  pub poster : Poster R
  pub json : Json
  pub project : Option Client
  pub stats : Bool
  pub now : ℕ

-- What an event is about, as `fire` takes it
pub record Subject : Type 0 where
  pub tenant_id : Option ℕ
  pub bucket_id : Option ℕ
  pub bucket_name : Option String

abbrev id_text : Option ℕ → String
id_text none = "0"
id_text (some n) = format_ℕ n

-- `fingerprint`
unfoldable pub fingerprint : ℕ → Option ℕ → Option ℕ → String
fingerprint rule_id tenant_id bucket_id = String.◌++◌ "r" (
    String.◌++◌ (format_ℕ rule_id)
      (String.◌++◌ "-t" (String.◌++◌ (id_text tenant_id) (String.◌++◌ "-b" (id_text bucket_id)))))

abbrev name_of : Option AccountRow → String
name_of none = ""
name_of (some a) = a.username

-- `stats.Store.Username`, where every error is ""
unfoldable pub username : ℕ → Action Store DbError String
unfolding query
username id = query (λ t. ok (name_of (first (by_account id) t.tenants.accounts)))

abbrev base_body : AlertRow → Subject → String → Bool → AlertEvent
base_body rule s name resolved = record {
  username = name;
  fingerprint = fingerprint rule.id s.tenant_id s.bucket_id;
  rule_type = rule.rule_type;
  severity = rule.severity;
  status = if resolved then "resolved" else "firing";
  title = rule.name;
  message = "";
  bucket_name = s.bucket_name;
  fired_at = none;
  resolved = resolved;
}

abbrev pub event_body : AlertRow → Subject → String → Option EventRow → Bool → AlertEvent
event_body rule s name none resolved = base_body rule s name resolved
event_body rule s name (some ev) resolved = record (base_body rule s name resolved) {
  title = ev.title;
  message = ev.message;
  severity = ev.severity;
  fired_at = some ev.fired_at;
}

module _ {R : Type 0} (e : Evaluator R) where
  abbrev pub put_for :
      AlertRow
      → Subject
      → Option EventRow
      → Bool
      → Result DbError String
      → Action (World R) DbError Unit
  put_for rule s ev resolved (err _) = pure tt
  put_for rule s ev resolved (ok name) = if name == "" then pure tt else (do
    attempt (on_remote (put_alert e.net e.project (event_body rule s name ev resolved)))
    pure tt)

  abbrev pub project_tenant :
      AlertRow → Subject → Option EventRow → Bool → Option ℕ → Action (World R) DbError Unit
  project_tenant rule s ev resolved none = pure tt
  project_tenant rule s ev resolved (some id) = do
    name ← attempt (on_db (username id))
    put_for rule s ev resolved name

  abbrev has_client : Option Client → Bool
  has_client none = false
  has_client (some c) = true

  -- `projectEvent`
  unfoldable pub project_event :
      AlertRow → Subject → Option EventRow → Bool → Action (World R) DbError Unit
  unfolding fingerprint
  project_event rule s ev resolved =
      if has_client e.project && rule.notify_tenant && e.stats
      then project_tenant rule s ev resolved s.tenant_id
      else pure tt

  -- The literal `Event{…}` of `fire`, with the columns that the table sets
  abbrev pub new_event : AlertRow → Subject → String → String → String → ℕ → EventRow
  new_event rule s title message details id = record {
    id = id;
    rule_id = some rule.id;
    rule_type = rule.rule_type;
    severity = rule.severity;
    status = "firing";
    title = title;
    message = message;
    tenant_id = s.tenant_id;
    bucket_id = s.bucket_id;
    bucket_name = s.bucket_name;
    details = details;
    notify_tenant = rule.notify_tenant;
    fired_at = e.now;
    acknowledged_at = none;
    acknowledged_by = none;
    resolved_at = none;
    created_at = e.now;
  }

  -- The end of `fire`, where no event is open
  unfoldable pub fire_new :
      AlertRow → Subject → String → String → String → Action (World R) DbError Bool
  fire_new rule s title message details = do
    ev ← on_db (insert_event e.json.jsonb (new_event rule s title message details))
    attempt (dispatch e.poster e.json ev rule)
    project_event rule s ev false
    pure true

  abbrev pub fire_unless :
      Bool → AlertRow → Subject → String → String → String → Action (World R) DbError Bool
  fire_unless true rule s title message details = pure false
  fire_unless false rule s title message details = fire_new rule s title message details

  -- `fire`, where `details` is the text of `json.Marshal`
  unfoldable pub fire :
      AlertRow → Subject → String → String → String → Action (World R) DbError Bool
  fire rule s title message details = do
    is_known ← on_db (has_open_event rule.id s.tenant_id s.bucket_id)
    fire_unless is_known rule s title message details

  -- `resolveAndProject`
  unfoldable pub resolve_and_project : AlertRow → Option ℕ → Option ℕ → Action (World R) DbError ℕ
  resolve_and_project rule tenant_id bucket_id = do
    n ← on_db (resolve_open rule.id tenant_id bucket_id e.now)
    if ltb 0 n
        then project_event rule
            (record { tenant_id = tenant_id; bucket_id = bucket_id; bucket_name = none }) none true
        else pure tt
    pure n

  module _ (seen : List ℕ) (pick : EventRow → Option ℕ) where
    abbrev pub is_seen : Option ℕ → Bool
    is_seen none = true
    is_seen (some id) = any (eqb id) seen

    -- The loop of `resolveUnseen`
    unfoldable pub resolve_each : AlertRow → List EventRow → Action (World R) DbError ℕ
    resolve_each rule [] = pure 0
    resolve_each rule (ev ∷ evs) =
        let rest = resolve_each rule evs in
        if is_seen (pick ev)
        then rest
        else (do r ← resolve_and_project rule ev.tenant_id ev.bucket_id; n ← rest; pure (r + n))

    -- `resolveUnseen`
    unfoldable pub resolve_unseen : AlertRow → Action (World R) DbError ℕ
    resolve_unseen rule = do
      open_events ← on_db (list_open_by_rule rule.id)
      resolve_each rule open_events
