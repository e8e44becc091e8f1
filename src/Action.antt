-- ===== src/Action.antt =====
-- Go methods that change state and may return early: what was written before an early return
-- stays written, so the state comes back beside the error too.
pub mod Inversion
pub mod Keeps
pub mod Triple
use osspilot_ops_api.Common.{ℕ, ◌≡◌, refl, Bool, true, false, ◌⊎◌, inl, inr, Option, none, some}

pub data Result {ℓ} (E A : Type ℓ) : Type ℓ where
  ok : A → Result E A
  err : E → Result E A

abbrev pub Action {ℓ} : Type ℓ → Type ℓ → Type ℓ → Type ℓ
Action S E A = S → Result E A × S

pub Result-cases {ℓ} :
    {E A : Type ℓ} (r : Result E A) → ((a : A) × (r ≡ ok a)) ⊎ ((e : E) × (r ≡ err e))
Result-cases (ok a) = inl (a, refl)
Result-cases (err e) = inr (e, refl)

module _ {ℓ} {S E A : Type ℓ} where
  abbrev pub pure : A → Action S E A
  pure a s = (ok a, s)

  abbrev pub stop : E → Action S E A
  stop e s = (err e, s)

  abbrev pub gets : (S → A) → Action S E A
  gets f s = (ok (f s), s)

  -- `if x == nil { return … }` on a pointer, with the value behind it afterwards.
  abbrev pub require : E → Option A → Action S E A
  require e none s = (err e, s)
  require e (some a) s = (ok a, s)

module _ {ℓ} {S E A B : Type ℓ} where
  abbrev pub continue : Result E A → (A → Action S E B) → Action S E B
  continue (ok a) f s = f a s
  continue (err e) f s = (err e, s)

  infixl 10 ◌>>=◌ ◌>>◌
  abbrev pub ◌>>=◌ : Action S E A → (A → Action S E B) → Action S E B
  ◌>>=◌ m f s = continue (m s).0 f (m s).1

  abbrev pub ◌>>◌ : Action S E A → Action S E B → Action S E B
  m >> n = m >>= λ _. n

module _ {S E : Type 0} where
  abbrev pub modify : (S → S) → Action S E Unit
  modify f s = (ok tt, f s)

  -- `if !test { return … }`
  abbrev pub guard : Bool → E → Action S E Unit
  guard true e s = (ok tt, s)
  guard false e s = (err e, s)

module _ {S E F A : Type 0} where
  -- `x, err := m()`: the error is a value for the code that follows.
  abbrev pub attempt : Action S E A → Action S F (Result E A)
  attempt m s = (ok (m s).0, (m s).1)
