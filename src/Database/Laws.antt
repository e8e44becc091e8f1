-- ===== src/Database/Laws.antt =====
-- Atomicity of statements and transactions, whatever faults occur.
use osspilot_ops_api.Common.{◌≡◌, refl, ◌⊎◌, inl, inr, arith}
use osspilot_ops_api.Action.{Result, ok, err, Action, Result-cases}
use osspilot_ops_api.Database.{
  DbError, unique_violation, broken, boundary, Db, query, transaction, rollback,
}

module _ {T : Type 0} where
  boundary_lem :
      (d : Db T)
      → ((boundary {T = T} d).1.tables ≡ d.tables)
        × (((boundary {T = T} d).0 ≡ ok tt) ⊎ ((boundary {T = T} d).0 ≡ err broken))
  unfolding boundary
  boundary_lem d = ground arith

module _ {T A : Type 0} where
  pub tables-query : (f : T → Result DbError A) (d : Db T) → (query f d).1.tables ≡ d.tables
  unfolding query
  tables-query f d = ground arith

  rollback_lem :
      (t : T) (r : Result DbError A × Db T) (e : DbError)
      → (rollback t r).0 ≡ err e
      → (rollback t r).1.tables ≡ t
  rollback_lem t (ok a, d) e h = ground arith
  rollback_lem t (err x, d) e h = refl

  -- A transaction that returns an error has changed no table.
  pub tables-transaction_err :
      (body : Action (Db T) DbError A) (d : Db T) (e : DbError)
      → (transaction body d).0 ≡ err e
      → (transaction body d).1.tables ≡ d.tables
  unfolding transaction
  tables-transaction_err body d e h = rollback_lem d.tables _ e h

  -- An error of a constraint comes from the body, which ran on the tables of the caller.
  pub transaction-refused :
      (body : Action (Db T) DbError A) (d : Db T)
      → (transaction body d).0 ≡ err unique_violation
      → (start : Db T) × (start.tables ≡ d.tables) × ((body start).0 ≡ err unique_violation)
  unfolding transaction
  transaction-refused body d e =
      let start = (boundary {T = T} d).1 in
      (
        start,
        (boundary_lem d).0,
        elim (Result-cases (body start).0) [
          | inl (a, good) ↦ ground (arith, boundary_lem d, boundary_lem (body start).1)
          | inr (x, bad) ↦ ground (arith, boundary_lem d)
        ],
      )

  -- A transaction leaves the tables alone, or its body succeeded from the tables of the caller and
  -- what it wrote stays.
  pub transaction-cases :
      (body : Action (Db T) DbError A) (d : Db T)
      → ((transaction body d).1.tables ≡ d.tables)
        ⊎ ((start : Db T) × (a : A) × (start.tables ≡ d.tables)
            × ((body start).0 ≡ ok a)
            × ((transaction body d).1.tables ≡ (body start).1.tables))
  unfolding transaction
  transaction-cases body d =
      let start = (boundary {T = T} d).1 in
      elim (Result-cases (body start).0) [
        | inr (x, bad) ↦ inl (ground (arith, boundary_lem d))
        | inl (a, good) ↦ elim (boundary_lem d).1 [
          | inr broken_begin ↦ inl (ground (arith, boundary_lem d))
          | inl begun ↦ elim (boundary_lem (body start).1).1 [
            | inr broken_commit ↦ inl (ground arith)
            | inl committed ↦
                inr
                  (start, a, (boundary_lem d).0, good, ground (arith, boundary_lem (body start).1))
          ]
        ]
      ]

  -- A transaction that returns a result has run its body on the tables of the caller.
  pub transaction-done :
      (body : Action (Db T) DbError A) (d : Db T) (a : A)
      → (transaction body d).0 ≡ ok a
      → (start : Db T) × (start.tables ≡ d.tables)
        × ((body start).0 ≡ ok a)
        × ((transaction body d).1.tables ≡ (body start).1.tables)
  unfolding transaction
  transaction-done body d a e =
      let start = (boundary {T = T} d).1 in
      let begun = boundary_lem d in
      elim (Result-cases (body start).0) [
        | inr (x, bad) ↦ ground (arith, begun)
        | inl (b, good) ↦
            let committed = boundary_lem (body start).1 in
            (
              start,
              begun.0,
              elim begun.1 [
                | inl _ ↦ elim committed.1 [ inl _ ↦ ground arith | inr _ ↦ ground arith ]
                | inr _ ↦ ground arith
              ],
              elim begun.1 [
                | inl _ ↦ elim committed.1 [
                  | inl _ ↦ ground (arith, committed.0)
                  | inr _ ↦ ground arith
                ]
                | inr _ ↦ ground arith
              ],
            )
      ]
