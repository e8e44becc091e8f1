-- ===== src/Database/Triple.antt =====
-- What statements and transactions do to the tables, whatever faults occur.
use osspilot_ops_api.Common.{◌≡◌, Bool, true, false, List, [], ◌∷◌}
use osspilot_ops_api.Action.{Result, ok, err, Action}
use osspilot_ops_api.Action.Triple.{Post, Triple, Post-intro, Post-ok}
use osspilot_ops_api.Database.{DbError, Db, exec, transaction}
use osspilot_ops_api.Database.Keeps.{OnTables}
use osspilot_ops_api.Database.Laws.{transaction-done, tables-transaction_err}

module _ {T A : Type 0} (P X : T → Type 0) (Q : A → T → Type 0) where
  lift-Post :
      (r : Result DbError A) (t : T) (faults : List Bool)
      → Post Q X (r, t)
      → Post (λ a. OnTables (Q a)) (OnTables X) (r, record { tables = t; faults = faults })
  lift-Post (ok a) t faults h = record { holds = h }
  lift-Post (err e) t faults h = record { holds = h }

  exec-Post :
      (faults : List Bool) (f : T → Result DbError A × T) (t : T)
      → Post Q X (f t)
      → X t
      → Post (λ a. OnTables (Q a)) (OnTables X) (exec f (record { tables = t; faults = faults }))
  unfolding exec
  exec-Post [] f t h x = lift-Post (f t).0 (f t).1 [] h
  exec-Post (true ∷ later) f t h x = record { holds = x }
  exec-Post (false ∷ later) f t h x = lift-Post (f t).0 (f t).1 later h

  pub Triple-exec :
      (f : T → Result DbError A × T)
      → ((t : T) → P t → Post Q X (f t))
      → ((t : T) → P t → X t)
      → Triple (OnTables P) (exec f) (λ a. OnTables (Q a)) (OnTables X)
  Triple-exec f hf out = record {
    at = λ s h. exec-Post s.faults f s.tables (hf s.tables h.holds) (out s.tables h.holds);
  }

module _ {T A : Type 0} (t : T) (X : T → Type 0) (Q : A → T → Type 0) where
  -- A transaction that stops leaves the tables alone.
  pub Triple-transaction :
      (body : Action (Db T) DbError A)
      → Triple (OnTables (λ u. u ≡ t)) body (λ a. OnTables (Q a)) (OnTables X)
      → Triple
          (OnTables (λ u. u ≡ t))
          (transaction body)
          (λ a. OnTables (Q a))
          (OnTables (λ u. u ≡ t))
  Triple-transaction body tb = record {
    at = λ d h.
        Post-intro (λ a. OnTables (Q a)) (OnTables (λ u. u ≡ t)) (transaction body d)
          (λ a e.
            let done = transaction-done body d a e in
            let start = done.0 in
            let inside =
              Post-ok (λ b. OnTables (Q b)) (OnTables X) (body start) a
                (tb.at start (record { holds = rw done.1 h.holds })) done.2 in
            record { holds = rw done.3 inside.holds })
          (λ x e. record { holds = rw (tables-transaction_err body d x e) h.holds });
  }
