-- ===== src/Database.antt =====
-- PostgreSQL as pgx shows it to the program. The tables are a parameter; each statement, begin and
-- commit may fail, as the list of faults says: `true` is a failure, and past its end all succeed.
pub mod Laws
pub mod Keeps
pub mod Triple
use osspilot_ops_api.Common.{ℕ, Bool, true, false, List, [], ◌∷◌, if◌then◌else◌}
use osspilot_ops_api.Action.{Result, ok, err, Action, ◌>>=◌, ◌>>◌}

pub data DbError : Type 0 where
  no_rows unique_violation broken : DbError

pub record Db (T : Type 0) : Type 0 where
  pub tables : T
  pub faults : List Bool

module _ {T A : Type 0} where
  abbrev run_statement : List Bool → (T → Result DbError A × T) → T → Result DbError A × Db T
  run_statement [] f t = ((f t).0, record { tables = (f t).1; faults = [] })
  run_statement (true ∷ later) f t = (err broken, record { tables = t; faults = later })
  run_statement (false ∷ later) f t = ((f t).0, record { tables = (f t).1; faults = later })

  -- A statement that may write. One that the constraints refuse writes nothing: see its function.
  unfoldable pub exec : (T → Result DbError A × T) → Action (Db T) DbError A
  exec f d = run_statement d.faults f d.tables

  -- A statement that only reads.
  unfoldable pub query : (T → Result DbError A) → Action (Db T) DbError A
  unfolding exec
  query f = exec (λ t. (f t, t))

module _ {T : Type 0} where
  -- BEGIN or COMMIT
  unfoldable pub boundary : Action (Db T) DbError Unit
  unfolding exec
  boundary = exec (λ t. (ok tt, t))

module _ {T A : Type 0} where
  -- An error inside the transaction, or at its commit, leaves the tables as they were.
  abbrev rollback : T → Result DbError A × Db T → Result DbError A × Db T
  rollback t (ok a, d) = (ok a, d)
  rollback t (err e, d) = (err e, record d { tables = t })

  -- `pool.Begin`, the body, `tx.Commit`, and the deferred `tx.Rollback`
  unfoldable pub transaction : Action (Db T) DbError A → Action (Db T) DbError A
  unfolding boundary
  transaction body d = rollback d.tables ((do boundary; a ← body; boundary; λ s. (ok a, s)) d)
