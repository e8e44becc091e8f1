-- ===== src/Http/Triple.antt =====
-- What the parts of handlers do to the state.
use osspilot_ops_api.Action.{Result, ok, err, Action}
use osspilot_ops_api.Action.Triple.{Post, Triple}
use osspilot_ops_api.Database.{DbError}
use osspilot_ops_api.Http.{Exit, or_500, database}

module _ (B : Type 0) {S A : Type 0} (Q : A → S → Type 0) (X : S → Type 0) where
  or_500-Post :
      (r : Result DbError A) (s : S) → Post Q X (r, s) → Post {E = Exit B} Q X (or_500 r s)
  or_500-Post (ok a) s h = h
  or_500-Post (err e) s h = h

module _ {B S A : Type 0} {Q : A → S → Type 0} {X : S → Type 0} where
  pub Triple-database :
      {P : S → Type 0} (m : Action S DbError A)
      → Triple P m Q X
      → Triple {E = Exit B} P (database m) Q X
  Triple-database m tm = record { at = λ s h. or_500-Post B Q X (m s).0 (m s).1 (tm.at s h) }
