-- ===== src/Http/Keeps.antt =====
-- Invariants of the parts of handlers.
use osspilot_ops_api.Common.{ℕ, String, ◌≡◌, arith}
use osspilot_ops_api.Action.{Result, ok, err, Action}
use osspilot_ops_api.Action.Keeps.{Keeps, Returns, Keeps-stop, keeps_rules}
use osspilot_ops_api.Database.{DbError}
use osspilot_ops_api.Http.{Exit, reply, error, or_500, database, refuse}

module _ {S B A : Type 0} {P : S → Type 0} where
  Keeps-or_500 : (r : Result DbError A) → Keeps {E = Exit B} P (or_500 r)
  Keeps-or_500 (ok a) = record { at = λ s h. h }
  Keeps-or_500 (err e) = record { at = λ s h. h }

  pub Keeps-database : (m : Action S DbError A) → Keeps P m → Keeps {E = Exit B} P (database m)
  Keeps-database m km = record { at = λ s h. (Keeps-or_500 (m s).0).at (m s).1 (km.at s h) }

  pub Keeps-refuse :
      (status : ℕ) (detail : String) → Keeps {E = Exit B} {A = A} P (refuse status detail)
  Keeps-refuse status detail = Keeps-stop (reply (error status detail))

or_500-eq-ok :
    {S B A : Type 0} (r : Result DbError A) (s : S) (a : A)
    → (or_500 {B = B} r s).0 ≡ ok a
    → r ≡ ok a
or_500-eq-ok (ok x) s a e = ground arith
or_500-eq-ok (err x) s a e = cc

module _ {S B A : Type 0} {P : S → Type 0} {Q : A → Type 0} where
  pub Returns-database :
      (m : Action S DbError A) → Returns P Q m → Returns {E = Exit B} P Q (database m)
  Returns-database m rm = record {
    result = λ s h a e. rm.result s h a (or_500-eq-ok (m s).0 (m s).1 a e);
  }

pub ruleset handler_rules = (keeps_rules, Keeps-database, Keeps-refuse)
