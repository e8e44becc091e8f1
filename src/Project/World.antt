-- ===== src/Project/World.antt =====
-- The state of the handlers that call the tenant API: the database, and the tenant API behind the
-- network.
pub mod Keeps
pub mod Triple
pub mod Both
use osspilot_ops_api.Common.{◌≡◌}
use osspilot_ops_api.Action.{Result, Action}
use osspilot_ops_api.Schema.{Store}

pub record World (R : Type 0) : Type 0 where
  pub db : Store
  pub remote : R

module _ {R E A : Type 0} where
  unfoldable pub on_db : Action Store E A → Action (World R) E A
  on_db m w = ((m w.db).0, record w { db = (m w.db).1 })

  unfoldable pub on_remote : Action R E A → Action (World R) E A
  on_remote m w = ((m w.remote).0, record w { remote = (m w.remote).1 })
