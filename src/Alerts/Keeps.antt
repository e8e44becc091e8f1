-- ===== src/Alerts/Keeps.antt =====
-- Invariants of the events of internal/alerts under its handlers.
use osspilot_ops_api.Common.{
  ℕ, String, ◌≡◌, Bool, Option, none, some, List, map, arith, inl, inr, Option-cases,
}
use osspilot_ops_api.Action.{Result, ok, err}
use osspilot_ops_api.Action.Keeps.{Keeps, Keeps-pure, Keeps-guard}
use osspilot_ops_api.Database.{DbError, exec}
use osspilot_ops_api.Database.Keeps.{OnTables, Keeps-exec, Keeps-query}
use osspilot_ops_api.Http.Keeps.{handler_rules}
use osspilot_ops_api.Schema.{Tables, Store}
use osspilot_ops_api.Schema.Alerts.{AlertRow, ChannelRow, EventRow}
use osspilot_ops_api.Auth.{Request}
use osspilot_ops_api.Auth.Accounts.{User}
use osspilot_ops_api.Alerts.Rows.{
  forget_rule, get_alert, get_channel, insert_alert, insert_alert_row, update_alert,
  update_alert_row, delete_alert, drop_alert, insert_channel, insert_channel_row, update_channel,
  update_channel_row, delete_channel, write_alert, write_channel,
}
use osspilot_ops_api.Alerts.Events.{
  update_where, is_unresolved, acknowledge_row, acknowledge_rows, resolve_row, resolve_rows,
  acknowledge, resolve_event, get_event,
}
use osspilot_ops_api.Alerts.{
  Json, RuleReq, ChannelReq, ready, path_id, or_400, or_gone, load_rule, load_event, delete_rule,
  remove_channel, ack, resolve,
}
use osspilot_ops_api.Alerts.Changes.{
  create_rule, check_update, update_rule, create_channel, change_channel,
}

abbrev pub forget_in : ℕ → List EventRow → List EventRow
forget_in id = map (λ (e : EventRow). record e { rule_id = forget_rule id e.rule_id })

-- What the handlers do to the events keeps `P`.
pub record IsKept (P : List EventRow → Type 0) : Type 0 where
  pub acknowledges :
      (id user_id at : ℕ) (es : List EventRow)
      → P es
      → P (update_where (is_unresolved id) (acknowledge_row user_id at) es)
  pub resolves :
      (id at : ℕ) (es : List EventRow)
      → P es
      → P (update_where (is_unresolved id) (resolve_row at) es)
  pub forgets : (id : ℕ) (es : List EventRow) → P es → P (forget_in id es)

unfoldable pub OnEvents : (List EventRow → Type 0) → Tables → Type 0
OnEvents P t = P t.alerts.events

abbrev pub EventsHold : (List EventRow → Type 0) → Store → Type 0
EventsHold P = OnTables (OnEvents P)

module _ (P : List EventRow → Type 0) where
  pub get_event-Keeps : (id : ℕ) → Keeps (EventsHold P) (get_event id)
  unfolding get_event
  get_event-Keeps id = Keeps-query _

  get_alert-Keeps : (id : ℕ) → Keeps (EventsHold P) (get_alert id)
  unfolding get_alert
  get_alert-Keeps id = Keeps-query _

  get_channel-Keeps : (id : ℕ) → Keeps (EventsHold P) (get_channel id)
  unfolding get_channel
  get_channel-Keeps id = Keeps-query _

  pub acknowledge-Keeps :
      IsKept P → (id user_id at : ℕ) → Keeps (EventsHold P) (acknowledge id user_id at)
  unfolding acknowledge acknowledge_rows OnEvents
  acknowledge-Keeps k id user_id at =
      let step : Keeps (EventsHold P) (exec (acknowledge_rows id user_id at)) =
        Keeps-exec _ (λ t h. ground (arith, k.acknowledges id user_id at t.alerts.events h)) in
      search (handler_rules, get_event-Keeps, step) depth 20

  pub resolve_event-Keeps : IsKept P → (id at : ℕ) → Keeps (EventsHold P) (resolve_event id at)
  unfolding resolve_event resolve_rows OnEvents
  resolve_event-Keeps k id at =
      let step : Keeps (EventsHold P) (exec (resolve_rows id at)) =
        Keeps-exec _ (λ t h. k.resolves id at t.alerts.events h) in
      search (handler_rules, get_event-Keeps, step) depth 20

  pub delete_alert-Keeps : IsKept P → (id : ℕ) → Keeps (EventsHold P) (delete_alert id)
  unfolding delete_alert drop_alert OnEvents
  delete_alert-Keeps k id = Keeps-exec _ (λ t h. k.forgets id t.alerts.events h)

  pub delete_channel-Keeps : (id : ℕ) → Keeps (EventsHold P) (delete_channel id)
  unfolding delete_channel OnEvents
  delete_channel-Keeps id = Keeps-exec _ (λ t h. h)

-- The statements on rules and channels leave the events alone.
module _ (jsonb : String → Option String) (t : Tables) where
  insert_alert_row-events :
      (row : ℕ → AlertRow) → (insert_alert_row jsonb row t).1.alerts.events ≡ t.alerts.events
  unfolding insert_alert_row
  insert_alert_row-events row =
      elim (Option-cases (write_alert jsonb (row t.alerts.next_alert_rule_id))) [
        | inl bad ↦ ground arith
        | inr (r, good) ↦ ground arith
      ]

  update_alert_row-events :
      (new : AlertRow) (at : ℕ)
      → (update_alert_row jsonb new at t).1.alerts.events ≡ t.alerts.events
  unfolding update_alert_row
  update_alert_row-events new at = elim (Option-cases (write_alert jsonb new)) [
    | inl bad ↦ ground arith
    | inr (r, good) ↦ ground arith
  ]

  insert_channel_row-events :
      (row : ℕ → ChannelRow) → (insert_channel_row jsonb row t).1.alerts.events ≡ t.alerts.events
  unfolding insert_channel_row
  insert_channel_row-events row =
      elim (Option-cases (write_channel jsonb (row t.alerts.next_channel_id))) [
        | inl bad ↦ ground arith
        | inr (r, good) ↦ ground arith
      ]

  update_channel_row-events :
      (new : ChannelRow) (at : ℕ)
      → (update_channel_row jsonb new at t).1.alerts.events ≡ t.alerts.events
  unfolding update_channel_row
  update_channel_row-events new at = elim (Option-cases (write_channel jsonb new)) [
    | inl bad ↦ ground arith
    | inr (r, good) ↦ ground arith
  ]

module _ (P : List EventRow → Type 0) (jsonb : String → Option String) where
  insert_alert-Keeps : (row : ℕ → AlertRow) → Keeps (EventsHold P) (insert_alert jsonb row)
  unfolding insert_alert OnEvents
  insert_alert-Keeps row =
      let step : Keeps (EventsHold P) (exec (insert_alert_row jsonb row)) =
        Keeps-exec _ (λ t h. rw (insert_alert_row-events jsonb t row) h) in
      search (handler_rules, get_alert-Keeps, step) depth 20

  update_alert-Keeps : (new : AlertRow) (at : ℕ) → Keeps (EventsHold P) (update_alert jsonb new at)
  unfolding update_alert OnEvents
  update_alert-Keeps new at =
      let step : Keeps (EventsHold P) (exec (update_alert_row jsonb new at)) =
        Keeps-exec _ (λ t h. rw (update_alert_row-events jsonb t new at) h) in
      search (handler_rules, get_alert-Keeps, step) depth 20

  insert_channel-Keeps : (row : ℕ → ChannelRow) → Keeps (EventsHold P) (insert_channel jsonb row)
  unfolding insert_channel OnEvents
  insert_channel-Keeps row =
      let step : Keeps (EventsHold P) (exec (insert_channel_row jsonb row)) =
        Keeps-exec _ (λ t h. rw (insert_channel_row-events jsonb t row) h) in
      search (handler_rules, get_channel-Keeps, step) depth 20

  update_channel-Keeps :
      (new : ChannelRow) (at : ℕ) → Keeps (EventsHold P) (update_channel jsonb new at)
  unfolding update_channel OnEvents
  update_channel-Keeps new at =
      let step : Keeps (EventsHold P) (exec (update_channel_row jsonb new at)) =
        Keeps-exec _ (λ t h. rw (update_channel_row-events jsonb t new at) h) in
      search (handler_rules, get_channel-Keeps, step) depth 20

module _ (P : List EventRow → Type 0) where
  ready-Keeps : (store : Bool) → Keeps (EventsHold P) (ready store)
  unfolding ready
  ready-Keeps store = Keeps-guard _ _

  or_400-Keeps : (r : Result String Unit) → Keeps (EventsHold P) (or_400 r)
  or_400-Keeps (ok _) = Keeps-pure tt
  or_400-Keeps (err detail) = search handler_rules depth 5

  check_update-Keeps :
      (j : Json) (store : Bool) (req : RuleReq) → Keeps (EventsHold P) (check_update j store req)
  unfolding check_update
  check_update-Keeps j store req = search (handler_rules, or_400-Keeps) depth 20

module _ (P : List EventRow → Type 0) {Q : Type 0} (store : Bool) (r : Request Q) where
  path_id-Keeps : (name : String) → Keeps (EventsHold P) (path_id r name)
  unfolding path_id
  path_id-Keeps name = search handler_rules depth 5

  or_gone-Keeps :
      (outcome : Result DbError (Option EventRow)) → Keeps (EventsHold P) (or_gone store r outcome)
  or_gone-Keeps (ok (some e)) = Keeps-pure e
  or_gone-Keeps (ok none) = search handler_rules depth 5
  or_gone-Keeps (err e) = search handler_rules depth 5

  load_rule-Keeps : Keeps (EventsHold P) (load_rule store r)
  unfolding load_rule
  load_rule-Keeps = search (handler_rules, ready-Keeps, path_id-Keeps, get_alert-Keeps) depth 20

  load_event-Keeps : Keeps (EventsHold P) (load_event store r)
  unfolding load_event
  load_event-Keeps = search (handler_rules, ready-Keeps, path_id-Keeps, get_event-Keeps) depth 20

  pub delete_rule-Keeps : IsKept P → Keeps (EventsHold P) (delete_rule store r)
  unfolding delete_rule
  delete_rule-Keeps k =
      search (handler_rules, ready-Keeps, path_id-Keeps, delete_alert-Keeps P k) depth 20

  pub remove_channel-Keeps : Keeps (EventsHold P) (remove_channel store r)
  unfolding remove_channel
  remove_channel-Keeps =
      search (handler_rules, ready-Keeps, path_id-Keeps, delete_channel-Keeps) depth 20

  pub ack-Keeps : IsKept P → (user : User) → Keeps (EventsHold P) (ack store r user)
  unfolding ack
  ack-Keeps k user =
      search (handler_rules, load_event-Keeps, acknowledge-Keeps P k, or_gone-Keeps) depth 20

  pub resolve-Keeps : IsKept P → Keeps (EventsHold P) (resolve store r)
  unfolding resolve
  resolve-Keeps k =
      search (handler_rules, load_event-Keeps, resolve_event-Keeps P k, or_gone-Keeps) depth 20

module _ (P : List EventRow → Type 0) (j : Json) (store : Bool) where
  pub create_rule-Keeps : (r : Request RuleReq) → Keeps (EventsHold P) (create_rule j store r)
  unfolding create_rule
  create_rule-Keeps r =
      search (handler_rules, ready-Keeps, or_400-Keeps, insert_alert-Keeps) depth 24

  pub update_rule-Keeps : (r : Request RuleReq) → Keeps (EventsHold P) (update_rule j store r)
  unfolding update_rule
  update_rule-Keeps r =
      search (handler_rules, load_rule-Keeps, check_update-Keeps, update_alert-Keeps) depth 24

  pub create_channel-Keeps :
      (r : Request ChannelReq) → Keeps (EventsHold P) (create_channel j store r)
  unfolding create_channel
  create_channel-Keeps r =
      search (handler_rules, ready-Keeps, or_400-Keeps, insert_channel-Keeps) depth 24

  pub change_channel-Keeps :
      (r : Request ChannelReq) → Keeps (EventsHold P) (change_channel j store r)
  unfolding change_channel
  change_channel-Keeps r =
      search
        (
          handler_rules, ready-Keeps, path_id-Keeps, get_channel-Keeps, or_400-Keeps,
          update_channel-Keeps,
        )
        depth 24
