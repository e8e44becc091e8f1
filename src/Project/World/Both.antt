-- ===== src/Project/World/Both.antt =====
-- Properties of the database and of the tenant API at once.
use osspilot_ops_api.Action.{Action, attempt}
use osspilot_ops_api.Action.Keeps.{Keeps, Returns}
use osspilot_ops_api.Action.Triple.{Triple}
use osspilot_ops_api.Schema.{Store}
use osspilot_ops_api.Project.World.{World, on_db, on_remote}

pub record Both {R : Type 0} (P : Store → Type 0) (Q : R → Type 0) (w : World R) : Type 0 where
  pub db : P w.db
  pub remote : Q w.remote

module _ {R E A : Type 0} {P : Store → Type 0} {Q : R → Type 0} where
  pub Keeps-on_db-Both : (m : Action Store E A) → Keeps P m → Keeps (Both P Q) (on_db m)
  unfolding on_db
  Keeps-on_db-Both m km = record { at = λ s h. record { db = km.at s.db h.db; remote = h.remote } }

module _ {R E A : Type 0} {P : Store → Type 0} {Q : R → Type 0} {S : A → Type 0} where
  pub Returns-on_db-Both : (m : Action Store E A) → Returns P S m → Returns (Both P Q) S (on_db m)
  unfolding on_db
  Returns-on_db-Both m rm = record { result = λ s h a e. rm.result s.db h.db a e }

module _ {R E F A : Type 0} {P : Store → Type 0} {Q Q' : R → Type 0} {X : World R → Type 0} where
  -- A call whose error is a value
  pub Triple-call :
      (m : Action R E A)
      → ((r : R) → Q r → Q' (m r).1)
      → Triple {E = F} (Both P Q) (attempt (on_remote m)) (λ _. Both P Q') X
  unfolding on_remote
  Triple-call m hm = record { at = λ s h. record { db = h.db; remote = hm s.remote h.remote } }
