-- ===== src/Alerts/Firing/Subjects.antt =====
-- Whether a bucket has an open event of a rule, under `fire` and `resolveAndProject` of internal/alerts.
pub mod Fire
use osspilot_ops_api.Common.{
  ℕ, eqb, String, ◌≡◌, refl, ◌∙◌, Bool, true, false, Option, none, some, List, [], ◌∷◌, any, map,
  arith, if◌then◌else◌,
}
use osspilot_ops_api.Action.{◌>>=◌}
use osspilot_ops_api.Action.Keeps.{Keeps, Keeps-if, Keeps-bind, keeps_rules}
use osspilot_ops_api.Action.Triple.{Triple, Triple-bind, Triple-keep}
use osspilot_ops_api.Database.Keeps.{Keeps-exec}
use osspilot_ops_api.Database.Triple.{Triple-exec}
use osspilot_ops_api.Schema.Alerts.{AlertRow, EventRow}
use osspilot_ops_api.Project.World.{World}
use osspilot_ops_api.Project.World.Keeps.{Keeps-on_db}
use osspilot_ops_api.Project.World.Triple.{Triple-on_db}
use osspilot_ops_api.Alerts.Events.{
  equals, same_id, is_open_for, is_to_resolve, by_event, resolve_row, resolve_open,
}
use osspilot_ops_api.Alerts.Keeps.{OnEvents, EventsHold}
use osspilot_ops_api.Alerts.Sending.{AreHeld, IsNoted, project_event-Keeps}
use osspilot_ops_api.Alerts.Evaluate.{Evaluator, resolve_and_project}

any-map_same :
    (test : EventRow → Bool) (f : EventRow → EventRow) (es : List EventRow)
    → ((e : EventRow) → test (f e) ≡ test e)
    → any test (map f es) ≡ any test es
any-map_same test f [] same = refl
any-map_same test f (e ∷ es) same = rw (same e) (rw (any-map_same test f es same) refl)

any-map_none :
    (test : EventRow → Bool) (f : EventRow → EventRow) (es : List EventRow)
    → ((e : EventRow) → test (f e) ≡ false)
    → any test (map f es) ≡ false
any-map_none test f [] never = refl
any-map_none test f (e ∷ es) never = rw (never e) (any-map_none test f es never)

abbrev pub Anything : List EventRow → Type 0
Anything es = Unit

module _ (rule_id id : ℕ) where
  -- An open event of the rule for the bucket
  abbrev pub is_for : EventRow → Bool
  is_for = is_open_for rule_id none (some id)

  unfoldable pub Open : Bool → List EventRow → Type 0
  Open v es = any is_for es ≡ v

  noted_same :
      (raw : String) (e : EventRow) (test : Bool)
      → is_for (if test then record e { details = raw } else e) ≡ is_for e
  noted_same raw e true = refl
  noted_same raw e false = refl

  pub Open-IsNoted : (v : Bool) → IsNoted (Open v)
  unfolding Open
  Open-IsNoted v n raw es h = any-map_same is_for _ es (λ e. noted_same raw e (by_event n e)) ∙ h

  same_some : (column : Option ℕ) (n : ℕ) → same_id column (some n) ≡ equals column n
  same_some none n = refl
  same_some (some m) n = refl

  resolved_at : (at : ℕ) (e : EventRow) → is_for (resolve_row at e) ≡ false
  resolved_at at e = ground arith

  unless_resolved :
      (at : ℕ) (e : EventRow) (test : Bool)
      → is_to_resolve rule_id none (some id) e ≡ test
      → is_for (if test then resolve_row at e else e) ≡ false
  unless_resolved at e true k = resolved_at at e
  unless_resolved at e false k = ground (arith, same_some e.bucket_id id)

  eqb_other :
      (column : Option ℕ) (other : ℕ)
      → eqb other id ≡ false
      → equals column other ≡ true
      → equals column id ≡ false
  eqb_other none other h k = refl
  eqb_other (some n) other h k = ground arith

  unless_other :
      (rule_id' : ℕ) (tenant_id : Option ℕ) (other at : ℕ)
      → eqb other id ≡ false
      → (e : EventRow) (test : Bool) → is_to_resolve rule_id' tenant_id (some other) e ≡ test
      → is_for (if test then resolve_row at e else e) ≡ is_for e
  unless_other rule_id' tenant_id other at h e true k =
      let asked : equals e.bucket_id other ≡ true = ground arith in
      rw (resolved_at at e)
        (ground (arith, same_some e.bucket_id id, eqb_other e.bucket_id other h asked))
  unless_other rule_id' tenant_id other at h e false k = refl

  resolve_open-Open :
      (at : ℕ)
      → Triple
          (EventsHold Anything)
          (resolve_open rule_id none (some id) at)
          (λ _. EventsHold (Open false))
          (EventsHold Anything)
  unfolding resolve_open OnEvents Open
  resolve_open-Open at =
      Triple-exec (OnEvents Anything) (OnEvents Anything) (λ _. OnEvents (Open false)) _
        (λ t k. any-map_none is_for _ t.alerts.events (λ e. unless_resolved at e _ refl)) (λ t k. k)

  pub resolve_open-other :
      (v : Bool) (rule_id' : ℕ) (tenant_id : Option ℕ) (other at : ℕ)
      → eqb other id ≡ false
      → Keeps (EventsHold (Open v)) (resolve_open rule_id' tenant_id (some other) at)
  unfolding resolve_open OnEvents Open
  resolve_open-other v rule_id' tenant_id other at h = Keeps-exec _ (λ t k.
      any-map_same is_for _ t.alerts.events
        (λ e. unless_other rule_id' tenant_id other at h e _ refl)
      ∙ k)

module _ {R : Type 0} (e : Evaluator R) (rule : AlertRow) (id : ℕ) where
  pub to_Anything : (v : Bool) (w : World R) → AreHeld (Open rule.id id v) w → AreHeld Anything w
  unfolding OnEvents
  to_Anything v w h = record { holds = record { holds = tt } }

  pub resolve_and_project-Open :
      Triple
        (AreHeld Anything)
        (resolve_and_project e rule none (some id))
        (λ _. AreHeld (Open rule.id id false))
        (AreHeld Anything)
  unfolding resolve_and_project
  resolve_and_project-Open =
      Triple-bind (λ _. AreHeld (Open rule.id id false)) _ _
        (Triple-on_db _ (resolve_open-Open rule.id id e.now))
        λ n.
          Triple-keep _
            (search (keeps_rules, Keeps-if, project_event-Keeps (Open rule.id id false)) depth 20)
            (to_Anything false)

  pub resolve_and_project-other :
      (v : Bool) (rule' : AlertRow) (tenant_id : Option ℕ) (other : ℕ)
      → eqb other id ≡ false
      → Keeps (AreHeld (Open rule.id id v)) (resolve_and_project e rule' tenant_id (some other))
  unfolding resolve_and_project
  resolve_and_project-other v rule' tenant_id other h =
      Keeps-bind _ _
        (Keeps-on_db _ (resolve_open-other rule.id id v rule'.id tenant_id other e.now h))
        λ n. search (keeps_rules, Keeps-if, project_event-Keeps (Open rule.id id v)) depth 20
