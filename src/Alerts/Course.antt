-- ===== src/Alerts/Course.antt =====
-- Evaluations of internal/alerts and requests to it, in any order.
mod Tests
use osspilot_ops_api.Common.{ℕ, String, ◌≡◌, Bool, Option, List, if◌then◌else◌}
use osspilot_ops_api.Action.{◌>>=◌, ◌>>◌}
use osspilot_ops_api.Action.Triple.{Post-same}
use osspilot_ops_api.Schema.Alerts.{AlertRow, EventRow}
use osspilot_ops_api.Project.World.{World}
use osspilot_ops_api.Alerts.{Json}
use osspilot_ops_api.Alerts.Keeps.{OnEvents}
use osspilot_ops_api.Alerts.Statuses.{Step, Step-keeps}
use osspilot_ops_api.Alerts.Unique.{OneOpen, OneOpen-IsKept}
use osspilot_ops_api.Alerts.Firing.{Held}
use osspilot_ops_api.Alerts.Evaluate.{Evaluator, Subject, fire, resolve_and_project, resolve_unseen}
use osspilot_ops_api.Alerts.Firing.Calls.{fire-Held, resolve_and_project-Held, resolve_unseen-Held}
use osspilot_ops_api.Alerts.Run.{Sources}
use osspilot_ops_api.Alerts.Run.Rules.{run}
use osspilot_ops_api.Alerts.Run.Rules.Held.{run-Held}

from_Held : {R : Type 0} (w : World R) → Held w → OneOpen w.db.tables.alerts.events
unfolding OnEvents
from_Held w h = h.holds.holds

to_Held : {R : Type 0} (w : World R) → OneOpen w.db.tables.alerts.events → Held w
unfolding OnEvents
to_Held w h = record { holds = record { holds = h } }

-- `W` are the floating-point numbers.
module _ {R : Type 0} (W : Type 0) (j : Json) (store : Bool) where
  -- A request, an evaluation, or a call that an evaluation makes; between two, faults may be set anew.
  pub data Turn (w w' : World R) : Type 0 where
    requests : Step j store w.db w'.db → Turn w w'
    fires :
        (e : Evaluator R) (rule : AlertRow) (s : Subject) (title message details : String)
        → w'.db.tables ≡ (fire e rule s title message details w).1.db.tables
        → Turn w w'
    resolves :
        (e : Evaluator R) (rule : AlertRow) (tenant_id bucket_id : Option ℕ)
        → w'.db.tables ≡ (resolve_and_project e rule tenant_id bucket_id w).1.db.tables
        → Turn w w'
    resolves_others :
        (e : Evaluator R) (seen : List ℕ) (pick : EventRow → Option ℕ) (rule : AlertRow)
        → w'.db.tables ≡ (resolve_unseen e seen pick rule w).1.db.tables
        → Turn w w'
    evaluates : (s : Sources R W) → w'.db.tables ≡ (run s w).1.db.tables → Turn w w'

  pub data Course (w : World R) : World R → Type 0 where
    begin : Course w w
    then_turn : {v u : World R} → Course w v → Turn v u → Course w u

  Turn-OneOpen :
      {w w' : World R}
      → Turn w w'
      → OneOpen w.db.tables.alerts.events
      → OneOpen w'.db.tables.alerts.events
  Turn-OneOpen (requests st) h = Step-keeps j store OneOpen OneOpen-IsKept st h
  Turn-OneOpen {w} (fires e rule s title message details q) h = rw q (
      from_Held _ (
        Post-same Held (fire e rule s title message details w)
          ((fire-Held e rule s title message details).at w (to_Held w h))))
  Turn-OneOpen {w} (resolves e rule tenant_id bucket_id q) h =
      rw q (from_Held _ ((resolve_and_project-Held e rule tenant_id bucket_id).at w (to_Held w h)))
  Turn-OneOpen {w} (resolves_others e seen pick rule q) h =
      rw q (from_Held _ ((resolve_unseen-Held e seen pick rule).at w (to_Held w h)))
  Turn-OneOpen {w} (evaluates s q) h = rw q (from_Held _ ((run-Held s).at w (to_Held w h)))

  -- Whatever requests to internal/alerts arrive, whatever rules are evaluated and whatever single
  -- events an evaluation fires or resolves, in any order, whatever fails and whatever the channels
  -- and the tenant API answer: every event has a known status with the times that fit it, and for a
  -- rule, a tenant and a bucket at most one event is open. Other parts of the program, as the
  -- deletion of an account, are not among the steps.
  pub Course-OneOpen :
      {w w' : World R}
      → Course w w'
      → OneOpen w.db.tables.alerts.events
      → OneOpen w'.db.tables.alerts.events
  Course-OneOpen begin h = h
  Course-OneOpen (then_turn c st) h = Turn-OneOpen st (Course-OneOpen c h)
