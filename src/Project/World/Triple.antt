-- ===== src/Project/World/Triple.antt =====
-- What the parts of handlers that call the tenant API do to the database.
use osspilot_ops_api.Action.{Result, ok, err, Action}
use osspilot_ops_api.Action.Triple.{Post, Triple}
use osspilot_ops_api.Schema.{Store}
use osspilot_ops_api.Project.World.{World, on_db}
use osspilot_ops_api.Project.World.Keeps.{OnDb}

module _ {R E A : Type 0} (Q : A → Store → Type 0) (X : Store → Type 0) where
  db-Post :
      (r : Result E A) (s : Store) (w : World R)
      → Post Q X (r, s)
      → Post (λ a. OnDb (Q a)) (OnDb X) (r, record w { db = s })
  db-Post (ok a) s w h = record { holds = h }
  db-Post (err e) s w h = record { holds = h }

module _ {R E A : Type 0} {Q : A → Store → Type 0} {X : Store → Type 0} where
  pub Triple-on_db :
      {P : Store → Type 0} (m : Action Store E A)
      → Triple P m Q X
      → Triple (OnDb {R = R} P) (on_db m) (λ a. OnDb (Q a)) (OnDb X)
  unfolding on_db
  Triple-on_db m tm = record {
    at = λ w h. db-Post Q X (m w.db).0 (m w.db).1 w (tm.at w.db h.holds);
  }
