-- ===== src/Database/Keeps.antt =====
-- Invariants of the tables under statements and transactions, whatever faults occur.
use osspilot_ops_api.Common.{◌≡◌, Bool, true, false, List, [], ◌∷◌}
use osspilot_ops_api.Action.{Result, ok}
use osspilot_ops_api.Action.Keeps.{Keeps, Returns}
use osspilot_ops_api.Database.{DbError, Db, exec, query}

-- A property of the tables, as one of the database.
pub record OnTables {T : Type 0} (P : T → Type 0) (d : Db T) : Type 0 where
  pub holds : P d.tables

module _ {T A : Type 0} {P : T → Type 0} where
  exec-cases :
      (faults : List Bool) (f : T → Result DbError A × T) (t : T)
      → ((u : T) → P u → P (f u).1)
      → P t
      → P (exec f (record { tables = t; faults = faults })).1.tables
  unfolding exec
  exec-cases [] f t kf h = kf t h
  exec-cases (true ∷ later) f t kf h = h
  exec-cases (false ∷ later) f t kf h = kf t h

  pub Keeps-exec :
      (f : T → Result DbError A × T) → ((t : T) → P t → P (f t).1) → Keeps (OnTables P) (exec f)
  Keeps-exec f kf = record {
    at = λ s h. record { holds = exec-cases s.faults f s.tables kf h.holds };
  }

  pub Keeps-query : (f : T → Result DbError A) → Keeps (OnTables P) (query f)
  unfolding query
  Keeps-query f = Keeps-exec (λ t. (f t, t)) (λ t h. h)

module _ {T A : Type 0} where
  query-cases :
      (faults : List Bool) (f : T → Result DbError A) (t : T) (a : A)
      → (query f (record { tables = t; faults = faults })).0 ≡ ok a
      → f t ≡ ok a
  unfolding query
  query-cases [] f t a e = e
  query-cases (true ∷ later) f t a e = cc
  query-cases (false ∷ later) f t a e = e

module _ {T A : Type 0} {P : T → Type 0} {Q : A → Type 0} where
  pub Returns-query :
      (f : T → Result DbError A)
      → ((t : T) → P t → (a : A) → f t ≡ ok a → Q a)
      → Returns (OnTables P) Q (query f)
  Returns-query f q = record {
    result = λ s h a e. q s.tables h.holds a (query-cases s.faults f s.tables a e);
  }
