-- ===== src/Alerts/Sending.antt =====
-- The channels and the tenant API get an event: only its details change in the database.
use osspilot_ops_api.Common.{ℕ, String, Bool, Option, none, some, List, [], ◌∷◌, ◌==◌}
use osspilot_ops_api.Common.Int.{ℤ}
use osspilot_ops_api.Action.{Result, ok, err}
use osspilot_ops_api.Action.Keeps.{Keeps, Keeps-if, keeps_rules, Keeps-pure}
use osspilot_ops_api.Database.{DbError}
use osspilot_ops_api.Database.Keeps.{Keeps-exec, Keeps-query}
use osspilot_ops_api.Schema.{Tables}
use osspilot_ops_api.Schema.Alerts.{AlertRow, ChannelRow, EventRow}
use osspilot_ops_api.Project.World.{World}
use osspilot_ops_api.Project.World.Keeps.{OnDb, Keeps-on_db, Keeps-on_remote}
use osspilot_ops_api.Alerts.{Json}
use osspilot_ops_api.Alerts.Rows.{list_enabled_channels, nz_json}
use osspilot_ops_api.Alerts.Events.{
  update_where, by_event, list_open_by_rule, update_event_details, set_details,
}
use osspilot_ops_api.Alerts.Keeps.{OnEvents, EventsHold}
use osspilot_ops_api.Alerts.Dispatch.{Poster, dispatch, dispatch_ids, dispatch_to, note_details}
use osspilot_ops_api.Alerts.Evaluate.{
  Evaluator, Subject, username, put_for, project_tenant, project_event,
}

abbrev pub AreHeld : {R : Type 0} → (List EventRow → Type 0) → World R → Type 0
AreHeld P = OnDb (EventsHold P)

-- A property of the events that other details keep
abbrev pub IsNoted : (List EventRow → Type 0) → Type 0
IsNoted P =
    (id : ℕ) (raw : String) (es : List EventRow)
    → P es
    → P (update_where (by_event id) (λ e. record e { details = raw }) es)

module _ (P : List EventRow → Type 0) where
  list_enabled_channels-Keeps : (ids : List ℕ) → Keeps (EventsHold P) (list_enabled_channels ids)
  unfolding list_enabled_channels
  list_enabled_channels-Keeps [] = Keeps-pure []
  list_enabled_channels-Keeps (id ∷ ids) = Keeps-query _

  username-Keeps : (id : ℕ) → Keeps (EventsHold P) (username id)
  unfolding username
  username-Keeps id = Keeps-query _

  pub list_open_by_rule-Keeps : (id : ℕ) → Keeps (EventsHold P) (list_open_by_rule id)
  unfolding list_open_by_rule
  list_open_by_rule-Keeps id = Keeps-query _

  module _ {R : Type 0} (e : Evaluator R) where
    put_for-Keeps :
        (rule : AlertRow) (s : Subject) (ev : Option EventRow) (resolved : Bool)
        (name : Result DbError String)
        → Keeps (AreHeld P) (put_for e rule s ev resolved name)
    put_for-Keeps rule s ev resolved (err x) = Keeps-pure tt
    put_for-Keeps rule s ev resolved (ok name) =
        Keeps-if (name == "") _ _ (Keeps-pure tt) (search (keeps_rules, Keeps-on_remote) depth 20)

    project_tenant-Keeps :
        (rule : AlertRow) (s : Subject) (ev : Option EventRow) (resolved : Bool) (id : Option ℕ)
        → Keeps (AreHeld P) (project_tenant e rule s ev resolved id)
    project_tenant-Keeps rule s ev resolved none = Keeps-pure tt
    project_tenant-Keeps rule s ev resolved (some id) =
        search (keeps_rules, Keeps-on_db, username-Keeps, put_for-Keeps) depth 20

    pub project_event-Keeps :
        (rule : AlertRow) (s : Subject) (ev : Option EventRow) (resolved : Bool)
        → Keeps (AreHeld P) (project_event e rule s ev resolved)
    unfolding project_event
    project_event-Keeps rule s ev resolved =
        Keeps-if _ _ _ (project_tenant-Keeps rule s ev resolved s.tenant_id) (Keeps-pure tt)

module _ (P : List EventRow → Type 0) (noted : IsNoted P) where
  set_details-Noted :
      (jsonb : String → Option String) (id : ℕ) (raw : Option String) (t : Tables)
      → P t.alerts.events
      → P (set_details jsonb id raw t).1.alerts.events
  set_details-Noted jsonb id none t h = h
  set_details-Noted jsonb id (some raw) t h = noted id raw t.alerts.events h

  update_event_details-Keeps :
      (jsonb : String → Option String) (id : ℕ) (raw : String)
      → Keeps (EventsHold P) (update_event_details jsonb id raw)
  unfolding update_event_details OnEvents
  update_event_details-Keeps jsonb id raw =
      Keeps-exec _ (set_details-Noted jsonb id (jsonb (nz_json raw "{}")))

  module _ {R : Type 0} (poster : Poster R) (j : Json) where
    note_details-Keeps :
        (id : ℕ) (raw : Option String) → Keeps (EventsHold P) (note_details poster j id raw)
    note_details-Keeps id none = Keeps-pure tt
    note_details-Keeps id (some raw) = search (keeps_rules, update_event_details-Keeps) depth 20

    dispatch_to-Keeps :
        (ev : EventRow) (chans : Result DbError (List ChannelRow))
        → Keeps (AreHeld P) (dispatch_to poster j ev chans)
    dispatch_to-Keeps ev (err e) = Keeps-pure tt
    dispatch_to-Keeps ev (ok chans) =
        search (keeps_rules, Keeps-on_db, Keeps-on_remote, note_details-Keeps) depth 20

    dispatch_ids-Keeps :
        (ev : EventRow) (ids : List ℤ) → Keeps (AreHeld P) (dispatch_ids poster j ev ids)
    dispatch_ids-Keeps ev [] = Keeps-pure tt
    dispatch_ids-Keeps ev (id ∷ ids) =
        search (keeps_rules, Keeps-on_db, list_enabled_channels-Keeps P, dispatch_to-Keeps) depth 20

    pub dispatch-Keeps :
        (ev : Option EventRow) (rule : AlertRow) → Keeps (AreHeld P) (dispatch poster j ev rule)
    unfolding dispatch
    dispatch-Keeps none rule = Keeps-pure tt
    dispatch-Keeps (some ev) rule = dispatch_ids-Keeps ev _
