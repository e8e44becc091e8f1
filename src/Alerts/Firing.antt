-- ===== src/Alerts/Firing.antt =====
-- The parts of an evaluation of internal/alerts, and the open events.
pub mod Calls
pub mod Subjects
pub mod Unseen
use osspilot_ops_api.Common.{
  ℕ, String, ◌≡◌, refl, Bool, true, false, Option, some, List, [], ◌∷◌, ◌++◌, any, All, arith,
  if◌then◌else◌, inr,
}
use osspilot_ops_api.Action.Keeps.{Keeps}
use osspilot_ops_api.Database.Keeps.{Keeps-exec}
use osspilot_ops_api.Schema.{Store}
use osspilot_ops_api.Schema.Alerts.{EventRow}
use osspilot_ops_api.Project.World.{World}
use osspilot_ops_api.Project.World.Keeps.{OnDb}
use osspilot_ops_api.Alerts.Events.{
  is_open_for, is_to_resolve, update_where, by_event, resolve_row, resolve_open,
}
use osspilot_ops_api.Alerts.Keeps.{OnEvents, EventsHold}
use osspilot_ops_api.Alerts.Statuses.{HasStatus, All-map-HasStatus}
use osspilot_ops_api.Alerts.Sending.{IsNoted}
use osspilot_ops_api.Alerts.Unique.{
  clash, Unique, Unique-map, OneOpen, Change, Change-refl, resolves-Change,
}

abbrev pub Kept : Store → Type 0
Kept = EventsHold OneOpen

abbrev pub Held : {R : Type 0} → World R → Type 0
Held = OnDb Kept

details-Change :
    (e : EventRow) (raw : String) (test : Bool)
    → Change e (if test then record e { details = raw } else e)
details-Change e raw true = record {
  tenant = refl;
  bucket = refl;
  opens = inr refl;
  rule = inr refl;
}
details-Change e raw false = Change-refl e

same_status :
    (e : EventRow) (raw : String) (test : Bool)
    → HasStatus e
    → HasStatus (if test then record e { details = raw } else e)
same_status e raw true h = h
same_status e raw false h = h

resolved_status :
    (at : ℕ) (e : EventRow) (test : Bool)
    → HasStatus e
    → HasStatus (if test then resolve_row at e else e)
resolved_status at e true h = refl
resolved_status at e false h = h

-- An event of another text is the same event.
pub OneOpen-IsNoted : IsNoted OneOpen
OneOpen-IsNoted id raw es h =
    let f : EventRow → EventRow = λ e. if by_event id e then record e { details = raw } else e in
    (
      All-map-HasStatus f (λ e k. same_status e raw (by_event id e) k) es h.0,
      Unique-map f (λ e k. details-Change e raw (by_event id e)) es h.0 h.1,
    )

resolves-OneOpen :
    (test : EventRow → Bool) (at : ℕ) (es : List EventRow)
    → OneOpen es
    → OneOpen (update_where test (resolve_row at) es)
resolves-OneOpen test at es h = (
  All-map-HasStatus _ (λ e k. resolved_status at e (test e) k) es h.0,
  Unique-map _ (λ e k. resolves-Change at e (test e)) es h.0 h.1,
)

-- An event whose key is free may be added.
any_append :
    (test : EventRow → Bool) (es : List EventRow) (e : EventRow)
    → any test es ≡ false
    → test e ≡ false
    → any test (es ++ e ∷ []) ≡ false
any_append test [] e h k = ground arith
any_append test (x ∷ es) e h k = ground (arith, any_append test es e)

pub free-Unique :
    (e : EventRow) (rule_id : ℕ) (es : List EventRow)
    → e.rule_id ≡ some rule_id
    → any (is_open_for rule_id e.tenant_id e.bucket_id) es ≡ false
    → Unique es
    → Unique (es ++ e ∷ [])
unfolding Unique
free-Unique e rule_id [] k free h = (refl, tt)
free-Unique e rule_id (x ∷ es) k free (h, hs) =
    let other_key : is_open_for rule_id e.tenant_id e.bucket_id x ≡ false = ground arith in
    let rest : any (is_open_for rule_id e.tenant_id e.bucket_id) es ≡ false = ground arith in
    (any_append (clash x) es e h (rw k (ground arith)), free-Unique e rule_id es k rest hs)

pub free-All :
    (e : EventRow) (es : List EventRow)
    → HasStatus e
    → All HasStatus es
    → All HasStatus (es ++ e ∷ [])
free-All e [] k h = (k, tt)
free-All e (x ∷ es) k (h, hs) = (h, free-All e es k hs)

pub resolve_open-Kept :
    (rule_id : ℕ) (tenant_id bucket_id : Option ℕ) (at : ℕ)
    → Keeps Kept (resolve_open rule_id tenant_id bucket_id at)
unfolding resolve_open OnEvents
resolve_open-Kept rule_id tenant_id bucket_id at =
    Keeps-exec _
      (λ t h. resolves-OneOpen (is_to_resolve rule_id tenant_id bucket_id) at t.alerts.events h)
