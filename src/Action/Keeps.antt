-- ===== src/Action/Keeps.antt =====
-- Invariants and postconditions of actions, one rule for each way to build an action.
use osspilot_ops_api.Common.{◌≡◌, refl, Bool, true, false, Option, none, some, arith, if◌then◌else◌}
use osspilot_ops_api.Action.{
  Result, ok, err, Action, continue, pure, stop, require, guard, attempt, ◌>>=◌,
}

-- `m` keeps `P`, whether it goes on or stops.
pub record Keeps {S E A : Type 0} (P : S → Type 0) (m : Action S E A) : Type 0 where
  pub at : (s : S) → P s → P (m s).1

-- Whatever `m` returns from a state with `P` has `Q`.
pub record Returns {S E A : Type 0} (P : S → Type 0) (Q : A → Type 0) (m : Action S E A)
    : Type 0 where
  pub result : (s : S) → P s → (a : A) → (m s).0 ≡ ok a → Q a

module _ {S E A : Type 0} {P : S → Type 0} where
  pub Keeps-pure : (a : A) → Keeps {E = E} P (pure a)
  Keeps-pure a = record { at = λ s h. h }

  pub Keeps-stop : (e : E) → Keeps {A = A} P (stop e)
  Keeps-stop e = record { at = λ s h. h }

  pub Keeps-require : (e : E) (o : Option A) → Keeps P (require e o)
  Keeps-require e none = record { at = λ s h. h }
  Keeps-require e (some a) = record { at = λ s h. h }

module _ {S E : Type 0} {P : S → Type 0} where
  pub Keeps-guard : (test : Bool) (e : E) → Keeps P (guard test e)
  Keeps-guard true e = record { at = λ s h. h }
  Keeps-guard false e = record { at = λ s h. h }

module _ {S E A : Type 0} {P : S → Type 0} where
  pub Keeps-if :
      (test : Bool) (m n : Action S E A) → Keeps P m → Keeps P n → Keeps P (if test then m else n)
  Keeps-if true m n km kn = km
  Keeps-if false m n km kn = kn

  -- Each branch may use the test.
  pub Keeps-if_of :
      (test : Bool) (m n : Action S E A)
      → (test ≡ true → Keeps P m)
      → (test ≡ false → Keeps P n)
      → Keeps P (if test then m else n)
  Keeps-if_of true m n km kn = km refl
  Keeps-if_of false m n km kn = kn refl

module _ {S E F A : Type 0} {P : S → Type 0} where
  pub Keeps-attempt : (m : Action S E A) → Keeps P m → Keeps {E = F} P (attempt m)
  Keeps-attempt m km = record { at = λ s h. km.at s h }

module _ {S E A B : Type 0} {P : S → Type 0} where
  Keeps-continue :
      (r : Result E A) (f : A → Action S E B)
      → ((a : A) → r ≡ ok a → Keeps P (f a))
      → Keeps P (continue r f)
  Keeps-continue (ok a) f kf = record { at = λ s h. (kf a refl).at s h }
  Keeps-continue (err e) f kf = record { at = λ s h. h }

  pub Keeps-bind :
      (m : Action S E A) (f : A → Action S E B)
      → Keeps P m
      → ((a : A) → Keeps P (f a))
      → Keeps P (m >>= f)
  Keeps-bind m f km kf = record {
    at = λ s h. (Keeps-continue (m s).0 f (λ a _. kf a)).at (m s).1 (km.at s h);
  }

  -- The rest of a block may use what `m` returns.
  pub Keeps-bind_post :
      (Q : A → Type 0) (m : Action S E A) (f : A → Action S E B)
      → Keeps P m
      → Returns P Q m
      → ((a : A) → Q a → Keeps P (f a))
      → Keeps P (m >>= f)
  Keeps-bind_post Q m f km rm kf = record {
    at = λ s h. (Keeps-continue (m s).0 f (λ a e. kf a (rm.result s h a e))).at (m s).1 (km.at s h);
  }

module _ {S E A B : Type 0} {P : S → Type 0} {R : B → Type 0} where
  Returns-continue :
      (r : Result E A) (f : A → Action S E B)
      → ((a : A) → r ≡ ok a → Returns P R (f a))
      → Returns P R (continue r f)
  Returns-continue (ok a) f rf = rf a refl
  Returns-continue (err e) f rf = record { result = λ s h b q. cc }

  pub Returns-bind :
      (Q : A → Type 0) (m : Action S E A) (f : A → Action S E B)
      → Keeps P m
      → Returns P Q m
      → ((a : A) → Q a → Returns P R (f a))
      → Returns P R (m >>= f)
  Returns-bind Q m f km rm rf = record {
    result = λ s h.
        (Returns-continue (m s).0 f (λ a e. rf a (rm.result s h a e))).result (m s).1 (km.at s h);
  }

  pub Returns-bind_any :
      (m : Action S E A) (f : A → Action S E B)
      → Keeps P m
      → ((a : A) → Returns P R (f a))
      → Returns P R (m >>= f)
  Returns-bind_any m f km rf = record {
    result = λ s h. (Returns-continue (m s).0 f (λ a e. rf a)).result (m s).1 (km.at s h);
  }

module _ {S E A : Type 0} {P : S → Type 0} {Q : A → Type 0} where
  pub Returns-pure : (a : A) → Q a → Returns {E = E} P Q (pure a)
  Returns-pure a q = record { result = λ s h b e. ground (arith, q) }

  pub Returns-require :
      (e : E) (o : Option A) → ((a : A) → o ≡ some a → Q a) → Returns P Q (require e o)
  Returns-require e none q = record { result = λ s h a x. cc }
  Returns-require e (some a) q = record { result = λ s h b x. q b (cc) }

module _ {S E : Type 0} {P : S → Type 0} where
  pub Returns-guard :
      (test : Bool) (e : E) → Returns P (λ (_ : Unit {0}). test ≡ true) (guard test e)
  Returns-guard true e = record { result = λ s h a x. refl }
  Returns-guard false e = record { result = λ s h a x. cc }

pub ruleset keeps_rules =
    (Keeps-pure, Keeps-stop, Keeps-require, Keeps-guard, Keeps-attempt, Keeps-bind)
