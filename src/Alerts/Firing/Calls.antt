-- ===== src/Alerts/Firing/Calls.antt =====
-- `fire`, `resolveAndProject` and `resolveUnseen` of internal/alerts leave at most one open event.
use osspilot_ops_api.Common.{
  ℕ, String, ◌≡◌, refl, Bool, true, false, Option, none, some, List, [], ◌∷◌, any, ◌&&◌, ◌+◌,
}
use osspilot_ops_api.Action.{ok, err, ◌>>=◌, pure}
use osspilot_ops_api.Action.Keeps.{Keeps, Keeps-if, keeps_rules, Keeps-pure, Keeps-bind}
use osspilot_ops_api.Action.Triple.{Post, if-Post, Triple, Triple-bind, Triple-keep, Triple-pure}
use osspilot_ops_api.Database.{broken, query}
use osspilot_ops_api.Database.Keeps.{OnTables}
use osspilot_ops_api.Database.Triple.{Triple-exec}
use osspilot_ops_api.Schema.{Tables}
use osspilot_ops_api.Schema.Alerts.{AlertRow, EventRow}
use osspilot_ops_api.Project.World.Keeps.{OnDb, Keeps-on_db}
use osspilot_ops_api.Project.World.Triple.{Triple-on_db}
use osspilot_ops_api.Alerts.Events.{
  is_open_for, has_open_event, insert_event, insert_event_row, add_event, append_event, event_fits,
  event_refers,
}
use osspilot_ops_api.Alerts.Keeps.{OnEvents, get_event-Keeps}
use osspilot_ops_api.Alerts.Unique.{OneOpen}
use osspilot_ops_api.Alerts.Sending.{dispatch-Keeps, project_event-Keeps, list_open_by_rule-Keeps}
use osspilot_ops_api.Alerts.Firing.{
  Kept, Held, resolve_open-Kept, OneOpen-IsNoted, free-Unique, free-All,
}
use osspilot_ops_api.Alerts.Evaluate.{
  Evaluator, Subject, new_event, fire_new, fire_unless, fire, resolve_and_project, resolve_each,
  resolve_unseen,
}

module _ {R : Type 0} (e : Evaluator R) where
  -- The tables with no open event of the subject
  Free : AlertRow → Subject → Bool → Tables → Type 0
  Free rule s b t =
      OneOpen t.alerts.events
      × (any (is_open_for rule.id s.tenant_id s.bucket_id) t.alerts.events ≡ b)

  has_open_event-Free :
      (rule : AlertRow) (s : Subject)
      → Triple Kept
          (has_open_event rule.id s.tenant_id s.bucket_id)
          (λ b. OnTables (Free rule s b))
          Kept
  unfolding has_open_event query OnEvents Free
  has_open_event-Free rule s =
      Triple-exec (OnEvents OneOpen) (OnEvents OneOpen) (λ b. Free rule s b) _ (λ t h. (h, refl))
        (λ t h. h)

  module _ (rule : AlertRow) (s : Subject) (title message details : String) where
    add_event-OneOpen :
        (raw : Option String) (id : ℕ) (t : Tables)
        → OneOpen t.alerts.events
        → any (is_open_for rule.id s.tenant_id s.bucket_id) t.alerts.events ≡ false
        → Post
            (λ (_ : ℕ). OnEvents OneOpen)
            (OnEvents OneOpen)
            (add_event e.json.jsonb raw (new_event e rule s title message details id) t)
    unfolding OnEvents
    add_event-OneOpen none id t h free = h
    add_event-OneOpen (some raw) id t h free =
        let new : EventRow = new_event e rule s title message details id in
        let ev : EventRow = record new { details = raw } in
        if-Post (λ (_ : ℕ). OnEvents OneOpen) (OnEvents OneOpen)
          (event_fits new && event_refers t new) (ok id, append_event e.json.jsonb ev t)
          (err broken, t)
          (
            free-All ev t.alerts.events refl h.0,
            free-Unique ev rule.id t.alerts.events refl free h.1,
          )
          h

    insert_event_row-OneOpen :
        (t : Tables)
        → Free rule s false t
        → Post
            (λ (_ : ℕ). OnEvents OneOpen)
            (OnEvents OneOpen)
            (insert_event_row e.json.jsonb (new_event e rule s title message details) t)
    unfolding insert_event_row OnEvents Free
    insert_event_row-OneOpen t (h, free) = add_event-OneOpen _ t.alerts.next_event_id t h free

    insert_event-Held :
        Triple
          (OnTables (Free rule s false))
          (insert_event e.json.jsonb (new_event e rule s title message details))
          (λ _. Kept)
          Kept
    unfolding insert_event Free OnEvents
    insert_event-Held =
        Triple-bind (λ _. Kept) _ _
          (Triple-exec (Free rule s false) (OnEvents OneOpen) (λ _. OnEvents OneOpen) _
            insert_event_row-OneOpen (λ t h. h.0))
          λ id. Triple-keep _ (get_event-Keeps OneOpen id) (λ w k. k)

    fire_unless-Held :
        (is_known : Bool)
        → Triple
            (OnDb (OnTables (Free rule s is_known)))
            (fire_unless e is_known rule s title message details)
            (λ _. Held)
            Held
    unfolding fire_new Free OnEvents
    fire_unless-Held true =
        Triple-pure false (λ w k. record { holds = record { holds = k.holds.holds.0 } })
    fire_unless-Held false =
        Triple-bind (λ _. Held) _ _ (Triple-on_db _ insert_event-Held)
          λ ev.
            Triple-keep _
              (search
                (keeps_rules, dispatch-Keeps OneOpen OneOpen-IsNoted, project_event-Keeps OneOpen)
                depth 20)
              (λ w k. k)

    pub fire-Held : Triple Held (fire e rule s title message details) (λ _. Held) Held
    unfolding fire
    fire-Held =
        Triple-bind (λ b. OnDb (OnTables (Free rule s b))) _ _
          (Triple-on_db _ (has_open_event-Free rule s)) fire_unless-Held

  pub resolve_and_project-Held :
      (rule : AlertRow) (tenant_id bucket_id : Option ℕ)
      → Keeps Held (resolve_and_project e rule tenant_id bucket_id)
  unfolding resolve_and_project
  resolve_and_project-Held rule tenant_id bucket_id =
      search (keeps_rules, Keeps-on_db, resolve_open-Kept, Keeps-if, project_event-Keeps OneOpen)
        depth 20

  module _ (seen : List ℕ) (pick : EventRow → Option ℕ) where
    resolve_each-Held :
        (rule : AlertRow) (evs : List EventRow) → Keeps Held (resolve_each e seen pick rule evs)
    unfolding resolve_each
    resolve_each-Held rule [] = Keeps-pure 0
    resolve_each-Held rule (ev ∷ evs) =
        let rest : Keeps Held (resolve_each e seen pick rule evs) = resolve_each-Held rule evs in
        let resolving : Keeps Held (do
          r ← resolve_and_project e rule ev.tenant_id ev.bucket_id
          n ← resolve_each e seen pick rule evs
          pure (r + n)) =
          Keeps-bind _ _ (resolve_and_project-Held rule ev.tenant_id ev.bucket_id)
            λ r. Keeps-bind _ _ rest λ n. Keeps-pure (r + n) in
        Keeps-if _ _ _ rest resolving

    pub resolve_unseen-Held : (rule : AlertRow) → Keeps Held (resolve_unseen e seen pick rule)
    unfolding resolve_unseen
    resolve_unseen-Held rule =
        search (keeps_rules, Keeps-on_db, list_open_by_rule-Keeps OneOpen, resolve_each-Held) depth
          20
