-- ===== src/Alerts/Firing/Subjects/Fire.antt =====
-- Whether a bucket has an open event of a rule, under `fire` of internal/alerts.
use osspilot_ops_api.Common.{
  ℕ, String, ◌≡◌, refl, ◌∙◌, Bool, true, false, Option, none, some, List, [], ◌∷◌, ◌++◌, any, arith,
  ◌&&◌,
}
use osspilot_ops_api.Action.{ok, err}
use osspilot_ops_api.Action.Keeps.{Keeps, Keeps-bind, Keeps-pure, keeps_rules}
use osspilot_ops_api.Action.Triple.{
  Post, Triple, Triple-bind, Triple-keep, Triple-pure, Triple-from, if-Post, Post-same,
}
use osspilot_ops_api.Database.{broken, query}
use osspilot_ops_api.Database.Keeps.{Keeps-exec, Keeps-query}
use osspilot_ops_api.Database.Triple.{Triple-exec}
use osspilot_ops_api.Schema.{Tables}
use osspilot_ops_api.Schema.Alerts.{AlertRow, EventRow}
use osspilot_ops_api.Project.World.Keeps.{Keeps-on_db}
use osspilot_ops_api.Project.World.Triple.{Triple-on_db}
use osspilot_ops_api.Alerts.Events.{
  same_id, has_open_event, insert_event, insert_event_row, add_event, append_event, event_fits,
  event_refers,
}
use osspilot_ops_api.Alerts.Keeps.{OnEvents, EventsHold, get_event-Keeps}
use osspilot_ops_api.Alerts.Sending.{AreHeld, dispatch-Keeps, project_event-Keeps}
use osspilot_ops_api.Alerts.Evaluate.{Evaluator, Subject, new_event, fire_new, fire_unless, fire}
use osspilot_ops_api.Alerts.Firing.Subjects.{Anything, is_for, Open, Open-IsNoted, to_Anything}

any-append_last :
    (test : EventRow → Bool) (es : List EventRow) (e : EventRow)
    → test e ≡ true
    → any test (es ++ e ∷ []) ≡ true
any-append_last test [] e h = ground arith
any-append_last test (x ∷ es) e h = ground (arith, any-append_last test es e h)

any-append_other :
    (test : EventRow → Bool) (es : List EventRow) (e : EventRow)
    → test e ≡ false
    → any test (es ++ e ∷ []) ≡ any test es
any-append_other test [] e h = ground arith
any-append_other test (x ∷ es) e h = rw (any-append_other test es e h) refl

module _ {R : Type 0} (e : Evaluator R) (rule : AlertRow) (id : ℕ) where
  module _ (name : Option String) (title message details : String) where
    abbrev subject : Subject
    subject = record { tenant_id = none; bucket_id = some id; bucket_name = name }

    add_event-Open :
        (raw : Option String) (n : ℕ) (t : Tables)
        → Post
            (λ (_ : ℕ). OnEvents (Open rule.id id true))
            (OnEvents Anything)
            (add_event e.json.jsonb raw (new_event e rule subject title message details n) t)
    unfolding OnEvents Open
    add_event-Open none n t = tt
    add_event-Open (some raw) n t =
        let new : EventRow = new_event e rule subject title message details n in
        let ev : EventRow = record new { details = raw } in
        if-Post (λ (_ : ℕ). OnEvents (Open rule.id id true)) (OnEvents Anything)
          (event_fits new && event_refers t new) (ok n, append_event e.json.jsonb ev t)
          (err broken, t) (any-append_last (is_for rule.id id) t.alerts.events ev (ground arith)) tt

    insert_event-Open :
        Triple
          (EventsHold Anything)
          (insert_event e.json.jsonb (new_event e rule subject title message details))
          (λ _. EventsHold (Open rule.id id true))
          (EventsHold Anything)
    unfolding insert_event insert_event_row OnEvents
    insert_event-Open =
        Triple-bind (λ _. EventsHold (Open rule.id id true)) _ _
          (Triple-exec (OnEvents Anything) (OnEvents Anything)
            (λ _. OnEvents (Open rule.id id true)) _
            (λ t k. add_event-Open _ t.alerts.next_event_id t) (λ t k. tt))
          λ n.
            Triple-keep _ (get_event-Keeps (Open rule.id id true) n) (λ w k. record { holds = tt })

    fire_unless-Open :
        (is_known : Bool)
        → Triple
            (AreHeld (Open rule.id id is_known))
            (fire_unless e is_known rule subject title message details)
            (λ _. AreHeld (Open rule.id id true))
            (AreHeld Anything)
    unfolding fire_new
    fire_unless-Open true = Triple-pure false (λ w k. k)
    fire_unless-Open false =
        Triple-bind (λ _. AreHeld (Open rule.id id true)) _ _
          (Triple-from (to_Anything e rule id false) (Triple-on_db _ insert_event-Open))
          λ ev.
            Triple-keep _
              (search
                (
                  keeps_rules,
                  dispatch-Keeps (Open rule.id id true) (Open-IsNoted rule.id id true),
                  project_event-Keeps (Open rule.id id true),
                )
                depth 20)
              (to_Anything e rule id true)

    has_open_event-Open :
        Triple
          (EventsHold Anything)
          (has_open_event rule.id none (some id))
          (λ b. EventsHold (Open rule.id id b))
          (EventsHold Anything)
    unfolding has_open_event query OnEvents Open
    has_open_event-Open =
        Triple-exec (OnEvents Anything) (OnEvents Anything) (λ b. OnEvents (Open rule.id id b)) _
          (λ t k. refl) (λ t k. tt)

    pub fire-Open :
        Triple
          (AreHeld Anything)
          (fire e rule subject title message details)
          (λ _. AreHeld (Open rule.id id true))
          (AreHeld Anything)
    unfolding fire
    fire-Open =
        Triple-bind (λ b. AreHeld (Open rule.id id b)) _ _ (Triple-on_db _ has_open_event-Open)
          fire_unless-Open

  module _ (v : Bool) (rule' : AlertRow) (s : Subject)
      (other : same_id s.bucket_id (some id) ≡ false) (title message details : String) where
    abbrev Same : List EventRow → Type 0
    Same = Open rule.id id v

    add_event-other :
        (raw : Option String) (n : ℕ) (t : Tables)
        → OnEvents Same t
        → OnEvents Same
            (add_event e.json.jsonb raw (new_event e rule' s title message details n) t).1
    unfolding OnEvents Open
    add_event-other none n t k = k
    add_event-other (some raw) n t k =
        let new : EventRow = new_event e rule' s title message details n in
        let ev : EventRow = record new { details = raw } in
        Post-same (OnEvents Same) _ (
          if-Post (λ (_ : ℕ). OnEvents Same) (OnEvents Same) (event_fits new && event_refers t new)
            (ok n, append_event e.json.jsonb ev t) (err broken, t)
            (any-append_other (is_for rule.id id) t.alerts.events ev (ground (arith, other)) ∙ k) k)

    insert_event-other :
        Keeps
          (EventsHold Same)
          (insert_event e.json.jsonb (new_event e rule' s title message details))
    unfolding insert_event insert_event_row OnEvents
    insert_event-other =
        Keeps-bind _ _ (Keeps-exec _ (λ t k. add_event-other _ t.alerts.next_event_id t k))
          (get_event-Keeps Same)

    fire_unless-other :
        (is_known : Bool)
        → Keeps (AreHeld Same) (fire_unless e is_known rule' s title message details)
    unfolding fire_new
    fire_unless-other true = Keeps-pure false
    fire_unless-other false =
        search
          (
            keeps_rules,
            Keeps-on_db,
            insert_event-other,
            dispatch-Keeps Same (Open-IsNoted rule.id id v),
            project_event-Keeps Same,
          )
          depth 20

    has_open_event-other : Keeps (EventsHold Same) (has_open_event rule'.id s.tenant_id s.bucket_id)
    unfolding has_open_event
    has_open_event-other = Keeps-query _

    pub fire-other : Keeps (AreHeld Same) (fire e rule' s title message details)
    unfolding fire
    fire-other = Keeps-bind _ _ (Keeps-on_db _ has_open_event-other) fire_unless-other
