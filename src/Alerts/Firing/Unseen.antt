-- ===== src/Alerts/Firing/Unseen.antt =====
-- `resolveUnseen` of internal/alerts: a bucket that was not seen keeps no open event of the rule.
use osspilot_ops_api.Common.{
  ℕ, eqb, ◌≡◌, refl, sym, ap, ◌∙◌, Bool, true, false, Option, none, some, List, [], ◌∷◌, any, keep,
  map, arith, inl, inr, Bool-cases, if◌then◌else◌,
}
use osspilot_ops_api.Action.Keeps.{Keeps, Keeps-if, Keeps-bind, keeps_rules}
use osspilot_ops_api.Action.Triple.{
  Triple, Triple-bind, Triple-keep, Triple-pure, Triple-from, Triple-if_of, Triple-weaken,
}
use osspilot_ops_api.Database.{query}
use osspilot_ops_api.Database.Keeps.{Keeps-exec}
use osspilot_ops_api.Database.Triple.{Triple-exec}
use osspilot_ops_api.Schema.Alerts.{AlertRow, EventRow}
use osspilot_ops_api.Project.World.{World}
use osspilot_ops_api.Project.World.Keeps.{Keeps-on_db}
use osspilot_ops_api.Project.World.Triple.{Triple-on_db}
use osspilot_ops_api.Alerts.Events.{
  same_id, is_to_resolve, resolve_row, list_open_by_rule, resolve_open,
}
use osspilot_ops_api.Alerts.Keeps.{OnEvents, EventsHold}
use osspilot_ops_api.Alerts.Sending.{AreHeld, project_event-Keeps}
use osspilot_ops_api.Alerts.Firing.Subjects.{Anything, is_for, Open, resolve_and_project-Open}
use osspilot_ops_api.Alerts.Evaluate.{
  Evaluator, is_seen, resolve_and_project, resolve_each, resolve_unseen,
}

any-keep :
    (p q : EventRow → Bool) (es : List EventRow)
    → ((e : EventRow) → p e ≡ true → q e ≡ true)
    → any p es ≡ true
    → any p (keep q es) ≡ true
any-keep p q [] sub h = h
any-keep p q (e ∷ es) sub h = ground (arith, sub e, any-keep p q es sub)

any-map_less :
    (p : EventRow → Bool) (f : EventRow → EventRow) (es : List EventRow)
    → ((e : EventRow) → p (f e) ≡ true → p e ≡ true)
    → any p (map f es) ≡ true
    → any p es ≡ true
any-map_less p f [] sub h = h
any-map_less p f (e ∷ es) sub h = ground (arith, sub e, any-map_less p f es sub)

module _ (rule_id id : ℕ) where
  -- An open event of the bucket is one of the given events.
  unfoldable pub Covered : List EventRow → List EventRow → Type 0
  Covered evs es = any (is_for rule_id id) es ≡ true → any (is_for rule_id id) evs ≡ true

  resolved_less :
      (at : ℕ) (e : EventRow) (test : Bool)
      → is_for rule_id id (if test then resolve_row at e else e) ≡ true
      → is_for rule_id id e ≡ true
  resolved_less at e true h = ground arith
  resolved_less at e false h = h

  resolve_open-Covered :
      (evs : List EventRow) (rule_id' : ℕ) (tenant_id bucket_id : Option ℕ) (at : ℕ)
      → Keeps (EventsHold (Covered evs)) (resolve_open rule_id' tenant_id bucket_id at)
  unfolding resolve_open OnEvents Covered
  resolve_open-Covered evs rule_id' tenant_id bucket_id at = Keeps-exec _ (λ t h k. h (
      any-map_less (is_for rule_id id) _ t.alerts.events
        (λ e. resolved_less at e (is_to_resolve rule_id' tenant_id bucket_id e)) k))

  list_open_by_rule-Covered :
      Triple
        (EventsHold Anything)
        (list_open_by_rule rule_id)
        (λ evs. EventsHold (Covered evs))
        (EventsHold Anything)
  unfolding list_open_by_rule query OnEvents Covered
  list_open_by_rule-Covered =
      Triple-exec (OnEvents Anything) (OnEvents Anything) (λ evs. OnEvents (Covered evs)) _
        (λ t k. any-keep (is_for rule_id id) _ t.alerts.events (λ e h. ground arith)) (λ t k. tt)

same_none : (column : Option ℕ) → same_id column none ≡ true → column ≡ none
same_none none h = refl
same_none (some n) h = cc

same_some : (column : Option ℕ) (id : ℕ) → same_id column (some id) ≡ true → column ≡ some id
same_some none id h = cc
same_some (some n) id h = ground (arith, h)

module _ {R : Type 0} (e : Evaluator R) (rule : AlertRow) (id : ℕ) (seen : List ℕ)
    (is_none : any (eqb id) seen ≡ false) where
  abbrev Within : List EventRow → World R → Type 0
  Within evs = AreHeld (Covered rule.id id evs)

  abbrev Closed : World R → Type 0
  Closed = AreHeld (Open rule.id id false)

  resolve_and_project-Within :
      (evs : List EventRow) (tenant_id bucket_id : Option ℕ)
      → Keeps (Within evs) (resolve_and_project e rule tenant_id bucket_id)
  unfolding resolve_and_project
  resolve_and_project-Within evs tenant_id bucket_id =
      Keeps-bind _ _
        (Keeps-on_db _ (resolve_open-Covered rule.id id evs rule.id tenant_id bucket_id e.now))
        λ n. search (keeps_rules, Keeps-if, project_event-Keeps (Covered rule.id id evs)) depth 20

  ended : (w : World R) → Within [] w → Closed w
  unfolding OnEvents Covered Open
  ended w h = record { holds = record { holds = ground (arith, h.holds.holds) } }

  dropped :
      (ev : EventRow) (evs : List EventRow) (w : World R)
      → is_for rule.id id ev ≡ false
      → Within (ev ∷ evs) w
      → Within evs w
  unfolding OnEvents Covered
  dropped ev evs w own h = record {
    holds = record { holds = λ k. ground (arith, own, h.holds.holds k) };
  }

  closed : (evs : List EventRow) (w : World R) → Closed w → Within evs w
  unfolding OnEvents Covered Open
  closed evs w h = record { holds = record { holds = λ k. ground (arith, k, h.holds.holds) } }

  within : (evs : List EventRow) (w : World R) → Within evs w → AreHeld Anything w
  unfolding OnEvents
  within evs w h = record { holds = record { holds = tt } }

  -- An event of the bucket among those that are not seen
  resolve-own :
      (ev : EventRow) (evs : List EventRow)
      → is_for rule.id id ev ≡ true
      → Triple
          (Within (ev ∷ evs))
          (resolve_and_project e rule ev.tenant_id ev.bucket_id)
          (λ _. Within evs)
          (AreHeld Anything)
  resolve-own ev evs own =
      let no_tenant : same_id ev.tenant_id none ≡ true = ground (arith, own) in
      let of_bucket : same_id ev.bucket_id (some id) ≡ true = ground (arith, own) in
      let closes : Triple (AreHeld Anything) (resolve_and_project e rule ev.tenant_id ev.bucket_id)
          (λ _. Closed) (AreHeld Anything) =
        rw (same_none ev.tenant_id no_tenant)
          (rw (same_some ev.bucket_id id of_bucket) (resolve_and_project-Open e rule id)) in
      Triple-from (within (ev ∷ evs)) (Triple-weaken closes (λ _ w h. closed evs w h) (λ w h. h))

  resolve-any :
      (ev : EventRow) (evs : List EventRow)
      → Triple
          (Within (ev ∷ evs))
          (resolve_and_project e rule ev.tenant_id ev.bucket_id)
          (λ _. Within evs)
          (AreHeld Anything)
  resolve-any ev evs = elim (Bool-cases (is_for rule.id id ev)) [
    | inl own ↦ resolve-own ev evs own
    | inr other ↦
        Triple-weaken
          (Triple-keep _ (resolve_and_project-Within (ev ∷ evs) ev.tenant_id ev.bucket_id)
            (within (ev ∷ evs)))
          (λ _ w h. dropped ev evs w other h) (λ w h. h)
  ]

  seen_other :
      (ev : EventRow) (bucket_id : Option ℕ)
      → ev.bucket_id ≡ bucket_id
      → is_seen e seen (λ x. x.bucket_id) bucket_id ≡ true
      → is_for rule.id id ev ≡ false
  seen_other ev bucket_id same k = elim (Bool-cases (is_for rule.id id ev)) [
    | inl own ↦
        let of_bucket : same_id ev.bucket_id (some id) ≡ true = ground (arith, own) in
        let here : bucket_id ≡ some id = sym same ∙ same_some ev.bucket_id id of_bucket in
        let found : is_seen e seen (λ x. x.bucket_id) (some id) ≡ true =
          sym (ap (is_seen e seen (λ x. x.bucket_id)) here) ∙ k in
        cc
    | inr other ↦ other
  ]

  resolve_each-Closed :
      (evs : List EventRow)
      → Triple
          (Within evs)
          (resolve_each e seen (λ x. x.bucket_id) rule evs)
          (λ _. Closed)
          (AreHeld Anything)
  unfolding resolve_each
  resolve_each-Closed [] = Triple-pure 0 ended
  resolve_each-Closed (ev ∷ evs) =
      Triple-if_of _ _ _
        (λ known.
          Triple-from (λ w h. dropped ev evs w (seen_other ev ev.bucket_id refl known) h)
            (resolve_each-Closed evs))
        (λ _.
          Triple-bind (λ _. Within evs) _ _ (resolve-any ev evs)
            λ r.
              Triple-bind (λ _. Closed) _ _ (resolve_each-Closed evs) λ n. Triple-pure _ (λ w h. h))

  pub resolve_unseen-Closed :
      Triple
        (AreHeld Anything)
        (resolve_unseen e seen (λ x. x.bucket_id) rule)
        (λ _. Closed)
        (AreHeld Anything)
  unfolding resolve_unseen
  resolve_unseen-Closed =
      Triple-bind Within _ _ (Triple-on_db _ (list_open_by_rule-Covered rule.id id))
        resolve_each-Closed
