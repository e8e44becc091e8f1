-- ===== src/Action/Inversion.antt =====
-- What a successful action says of its parts.
use osspilot_ops_api.Common.{◌≡◌, refl, Bool, true, false, Option, none, some}
use osspilot_ops_api.Action.{Result, ok, err, Action, guard, require, continue, ◌>>=◌, ◌>>◌}

module _ {S E B : Type 0} where
  pub guard_ok :
      (test : Bool) (e : E) (m : Action S E B) (s : S) {b : B}
      → ((guard test e >> m) s).0 ≡ ok b
      → (test ≡ true) × ((m s).0 ≡ ok b)
  guard_ok true e m s h = (refl, h)
  guard_ok false e m s h = cc

module _ {S E A B : Type 0} where
  pub require_ok :
      (e : E) (o : Option A) (f : A → Action S E B) (s : S) {b : B}
      → ((require e o >>= f) s).0 ≡ ok b
      → (a : A) × (o ≡ some a) × ((f a s).0 ≡ ok b)
  require_ok e none f s h = cc
  require_ok e (some a) f s h = (a, refl, h)

  bind_result :
      (r : Result E A) (f : A → Action S E B) (s : S) {b : B}
      → (continue r f s).0 ≡ ok b
      → (a : A) × (r ≡ ok a) × ((f a s).0 ≡ ok b)
  bind_result (ok a) f s h = (a, refl, h)
  bind_result (err e) f s h = cc

  pub bind_ok :
      (m : Action S E A) (f : A → Action S E B) (s : S) {b : B}
      → ((m >>= f) s).0 ≡ ok b
      → (a : A) × ((m s).0 ≡ ok a) × ((f a (m s).1).0 ≡ ok b)
  bind_ok m f s h = bind_result (m s).0 f (m s).1 h
