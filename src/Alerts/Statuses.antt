-- ===== src/Alerts/Statuses.antt =====
-- The statuses of the events of internal/alerts, after sequences of requests.
use osspilot_ops_api.Common.{
  ℕ, ◌≡◌, refl, ◌∙◌, ◌⊎◌, inl, inr, ◌≤◌, Bool, true, false, not, ◌&&◌, Option, none, some, List, [],
  ◌∷◌, map, All, arith, ◌==◌, if◌then◌else◌,
}
use osspilot_ops_api.Schema.{Store}
use osspilot_ops_api.Schema.Alerts.{EventRow}
use osspilot_ops_api.Auth.{Request}
use osspilot_ops_api.Auth.Accounts.{User}
use osspilot_ops_api.Alerts.Events.{is_unresolved, acknowledge_row, resolve_row}
use osspilot_ops_api.Alerts.{Json, RuleReq, ChannelReq, delete_rule, remove_channel, ack, resolve}
use osspilot_ops_api.Alerts.Changes.{create_rule, update_rule, create_channel, change_channel}
use osspilot_ops_api.Alerts.Keeps.{
  IsKept, OnEvents, ack-Keeps, resolve-Keeps, delete_rule-Keeps, remove_channel-Keeps,
  create_rule-Keeps, update_rule-Keeps, create_channel-Keeps, change_channel-Keeps,
}

abbrev pub is_set : Option ℕ → Bool
is_set none = false
is_set (some n) = true

-- The times of an event fit its status.
abbrev pub event_ok : EventRow → Bool
event_ok e =
    if e.status == "firing"
    then not (is_set e.acknowledged_at) && not (is_set e.resolved_at)
    else if e.status == "acknowledged"
    then is_set e.acknowledged_at && not (is_set e.resolved_at)
    else e.status == "resolved" && is_set e.resolved_at

abbrev pub HasStatus : EventRow → Type 0
HasStatus e = event_ok e ≡ true

-- firing, acknowledged, resolved
abbrev pub rank : EventRow → ℕ
rank e = if e.status == "resolved" then 2 else if e.status == "acknowledged" then 1 else 0

-- The same event with a status that is not earlier; one that was resolved keeps its time.
abbrev pub Advance : EventRow → EventRow → Type 0
Advance x y =
    (y.id ≡ x.id)
    × (rank x ≤ rank y)
    × (((x.status == "resolved") ≡ false) ⊎ (y.resolved_at ≡ x.resolved_at))

-- The events stay in their places and go forward.
unfoldable pub Forward : List EventRow → List EventRow → Type 0
Forward [] [] = Unit
Forward [] (y ∷ ys) = ⊥
Forward (x ∷ xs) [] = ⊥
Forward (x ∷ xs) (y ∷ ys) = Advance x y × Forward xs ys

pub Forward-refl : (es : List EventRow) → Forward es es
unfolding Forward
Forward-refl [] = tt
Forward-refl (e ∷ es) = ((refl, ground arith, inr refl), Forward-refl es)

-- A step from `y` to `z` that leaves resolved events as they are, but for their rule
Later : EventRow → EventRow → Type 0
Later y z =
    (z.id ≡ y.id)
    × (rank y ≤ rank z)
    × (((y.status == "resolved") ≡ false) ⊎ (z.resolved_at ≡ y.resolved_at))

Advance-trans : (x y z : EventRow) → Advance x y → Later y z → Advance x z
unfolding Later
Advance-trans x y z (i, r, a) (j, q, b) = (
  j ∙ i,
  ground arith,
  elim a [
    | inl open_x ↦ inl open_x
    | inr same ↦ elim b [ inl open_y ↦ inl (ground arith) | inr kept ↦ inr (kept ∙ same) ]
  ],
)

Forward-map :
    (f : EventRow → EventRow)
    → ((e : EventRow) → Later e (f e))
    → (xs ys : List EventRow) → Forward xs ys
    → Forward xs (map f ys)
unfolding Forward
Forward-map f step [] [] h = tt
Forward-map f step [] (y ∷ ys) h = elim h [ ]
Forward-map f step (x ∷ xs) [] h = elim h [ ]
Forward-map f step (x ∷ xs) (y ∷ ys) (a, h) =
    (Advance-trans x y (f y) a (step y), Forward-map f step xs ys h)

-- An update of one event that is not resolved
module _ (id : ℕ) (f : EventRow → EventRow) where
  updates-Later :
      (e : EventRow) (test : Bool)
      → is_unresolved id e ≡ test
      → ((f e).id ≡ e.id)
      → (((e.status == "resolved") ≡ false) → rank e ≤ rank (f e))
      → Later e (if test then f e else e)
  unfolding Later
  updates-Later e true unresolved same up =
      let open_event : (e.status == "resolved") ≡ false = ground arith in
      (same, up open_event, inl open_event)
  updates-Later e false unresolved same up = (refl, ground arith, inr refl)

  updates-HasStatus :
      (e : EventRow) (test : Bool)
      → is_unresolved id e ≡ test
      → HasStatus e
      → (((e.status == "resolved") ≡ false) → HasStatus (f e))
      → HasStatus (if test then f e else e)
  updates-HasStatus e true unresolved h good = good (ground arith)
  updates-HasStatus e false unresolved h good = h

module _ (id at : ℕ) where
  acknowledges-Later :
      (user_id : ℕ) (e : EventRow)
      → Later e (if is_unresolved id e then acknowledge_row user_id at e else e)
  acknowledges-Later user_id e =
      updates-Later id (acknowledge_row user_id at) e (is_unresolved id e) refl refl
        (λ open_event. ground arith)

  resolves-Later : (e : EventRow) → Later e (if is_unresolved id e then resolve_row at e else e)
  resolves-Later e =
      updates-Later id (resolve_row at) e (is_unresolved id e) refl refl
        (λ open_event. ground arith)

  acknowledges-HasStatus :
      (user_id : ℕ) (e : EventRow)
      → HasStatus e
      → HasStatus (if is_unresolved id e then acknowledge_row user_id at e else e)
  acknowledges-HasStatus user_id e h =
      updates-HasStatus id (acknowledge_row user_id at) e (is_unresolved id e) refl h
        (λ open_event. ground arith)

  resolves-HasStatus :
      (e : EventRow) → HasStatus e → HasStatus (if is_unresolved id e then resolve_row at e else e)
  resolves-HasStatus e h =
      updates-HasStatus id (resolve_row at) e (is_unresolved id e) refl h
        (λ open_event. ground arith)

pub All-map-HasStatus :
    (f : EventRow → EventRow)
    → ((e : EventRow) → HasStatus e → HasStatus (f e))
    → (es : List EventRow) → All HasStatus es
    → All HasStatus (map f es)
All-map-HasStatus f step [] h = tt
All-map-HasStatus f step (e ∷ es) (h, hs) = (step e h, All-map-HasStatus f step es hs)

pub HasStatus-IsKept : IsKept (All HasStatus)
HasStatus-IsKept = record {
  acknowledges =
      λ id user_id at es h. All-map-HasStatus _ (acknowledges-HasStatus id at user_id) es h;
  resolves = λ id at es h. All-map-HasStatus _ (resolves-HasStatus id at) es h;
  forgets = λ id es h. All-map-HasStatus _ (λ e k. k) es h;
}

pub Forward-IsKept : (start : List EventRow) → IsKept (Forward start)
unfolding Later
Forward-IsKept start = record {
  acknowledges = λ id user_id at es h. Forward-map _ (acknowledges-Later id at user_id) start es h;
  resolves = λ id at es h. Forward-map _ (resolves-Later id at) start es h;
  forgets = λ id es h. Forward-map _ (λ e. (refl, ground arith, inr refl)) start es h;
}

module _ (j : Json) (store : Bool) where
  -- A request to internal/alerts, but for an evaluation; between two, faults may be set anew.
  pub data Step (s s' : Store) : Type 0 where
    acknowledges :
        (r : Request Unit) (user : User) → s'.tables ≡ (ack store r user s).1.tables → Step s s'
    resolves : (r : Request Unit) → s'.tables ≡ (resolve store r s).1.tables → Step s s'
    creates_rule :
        (r : Request RuleReq) → s'.tables ≡ (create_rule j store r s).1.tables → Step s s'
    updates_rule :
        (r : Request RuleReq) → s'.tables ≡ (update_rule j store r s).1.tables → Step s s'
    deletes_rule : (r : Request Unit) → s'.tables ≡ (delete_rule store r s).1.tables → Step s s'
    creates_channel :
        (r : Request ChannelReq) → s'.tables ≡ (create_channel j store r s).1.tables → Step s s'
    updates_channel :
        (r : Request ChannelReq) → s'.tables ≡ (change_channel j store r s).1.tables → Step s s'
    deletes_channel :
        (r : Request Unit) → s'.tables ≡ (remove_channel store r s).1.tables → Step s s'

  pub data Reach (s : Store) : Store → Type 0 where
    here : Reach s s
    next : {t u : Store} → Reach s t → Step t u → Reach s u

  module _ (P : List EventRow → Type 0) (k : IsKept P) where
    pub Step-keeps : {s t : Store} → Step s t → P s.tables.alerts.events → P t.tables.alerts.events
    unfolding OnEvents
    Step-keeps {s} (acknowledges r user e) a =
        rw e ((ack-Keeps P store r k user).at s (record { holds = a })).holds
    Step-keeps {s} (resolves r e) a =
        rw e ((resolve-Keeps P store r k).at s (record { holds = a })).holds
    Step-keeps {s} (creates_rule r e) a =
        rw e ((create_rule-Keeps P j store r).at s (record { holds = a })).holds
    Step-keeps {s} (updates_rule r e) a =
        rw e ((update_rule-Keeps P j store r).at s (record { holds = a })).holds
    Step-keeps {s} (deletes_rule r e) a =
        rw e ((delete_rule-Keeps P store r k).at s (record { holds = a })).holds
    Step-keeps {s} (creates_channel r e) a =
        rw e ((create_channel-Keeps P j store r).at s (record { holds = a })).holds
    Step-keeps {s} (updates_channel r e) a =
        rw e ((change_channel-Keeps P j store r).at s (record { holds = a })).holds
    Step-keeps {s} (deletes_channel r e) a =
        rw e ((remove_channel-Keeps P store r).at s (record { holds = a })).holds

    Reach-keeps : {s t : Store} → Reach s t → P s.tables.alerts.events → P t.tables.alerts.events
    Reach-keeps here a = a
    Reach-keeps (next r st) a = Step-keeps st (Reach-keeps r a)

  -- Whatever requests to internal/alerts but an evaluation arrive and whatever fails, the events stay
  -- in their places and each goes forward only: firing, acknowledged, resolved. A resolved event
  -- keeps its time.
  pub Reach-Forward :
      {s t : Store} → Reach s t → Forward s.tables.alerts.events t.tables.alerts.events
  Reach-Forward {s} r =
      Reach-keeps (Forward s.tables.alerts.events) (Forward-IsKept s.tables.alerts.events) r
        (Forward-refl s.tables.alerts.events)

  -- Whatever requests to internal/alerts but an evaluation arrive and whatever fails, every event
  -- keeps a known status, with the times of its acknowledgement and its resolution set as the
  -- status says.
  pub Reach-HasStatus :
      {s t : Store}
      → Reach s t
      → All HasStatus s.tables.alerts.events
      → All HasStatus t.tables.alerts.events
  Reach-HasStatus r a = Reach-keeps (All HasStatus) HasStatus-IsKept r a
