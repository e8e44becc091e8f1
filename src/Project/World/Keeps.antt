-- ===== src/Project/World/Keeps.antt =====
-- Invariants of the database in such a state: a call of the tenant API cannot touch it.
use osspilot_ops_api.Action.{Action}
use osspilot_ops_api.Action.Keeps.{Keeps, Returns}
use osspilot_ops_api.Schema.{Store}
use osspilot_ops_api.Project.World.{World, on_db, on_remote}

pub record OnDb {R : Type 0} (P : Store → Type 0) (w : World R) : Type 0 where
  pub holds : P w.db

module _ {R E A : Type 0} {P : Store → Type 0} where
  pub Keeps-on_db : (m : Action Store E A) → Keeps P m → Keeps (OnDb {R = R} P) (on_db m)
  unfolding on_db
  Keeps-on_db m km = record { at = λ s h. record { holds = km.at s.db h.holds } }

  pub Keeps-on_remote : (m : Action R E A) → Keeps (OnDb P) (on_remote m)
  unfolding on_remote
  Keeps-on_remote m = record { at = λ s h. record { holds = h.holds } }

module _ {R E A : Type 0} {P : Store → Type 0} {Q : A → Type 0} where
  pub Returns-on_db : (m : Action Store E A) → Returns P Q m → Returns (OnDb {R = R} P) Q (on_db m)
  unfolding on_db
  Returns-on_db m rm = record { result = λ s h a e. rm.result s.db h.holds a e }
