-- ===== src/Action/Triple.antt =====
-- What an action does from the states with `P`: it returns with `Q` or it stops with `X`.
use osspilot_ops_api.Common.{◌≡◌, refl, Bool, true, false, arith, if◌then◌else◌}
use osspilot_ops_api.Action.{Result, ok, err, Action, continue, attempt, pure, ◌>>=◌}
use osspilot_ops_api.Action.Keeps.{Keeps, Returns}

abbrev pub Post : {S E A : Type 0} (Q : A → S → Type 0) (X : S → Type 0) → Result E A × S → Type 0
Post Q X (ok a, s) = Q a s
Post Q X (err e, s) = X s

pub record Triple {S E A : Type 0} (P : S → Type 0) (m : Action S E A) (Q : A → S → Type 0)
    (X : S → Type 0) : Type 0 where
  pub at : (s : S) → P s → Post Q X (m s)

module _ {S E A B : Type 0} {X : S → Type 0} {R : B → S → Type 0} where
  continue-Post :
      (Q : A → S → Type 0) (r : Result E A) (s : S) (f : A → Action S E B)
      → Post Q X (r, s)
      → ((a : A) → Triple (Q a) (f a) R X)
      → Post R X (continue r f s)
  continue-Post Q (ok a) s f h tf = (tf a).at s h
  continue-Post Q (err e) s f h tf = h

  pub Triple-bind :
      {P : S → Type 0} (Q : A → S → Type 0) (m : Action S E A) (f : A → Action S E B)
      → Triple P m Q X
      → ((a : A) → Triple (Q a) (f a) R X)
      → Triple P (m >>= f) R X
  Triple-bind Q m f tm tf = record { at = λ s h. continue-Post Q (m s).0 (m s).1 f (tm.at s h) tf }

module _ {S E A : Type 0} where
  frame-Post :
      (P X : S → Type 0) (Q : A → Type 0) (r : Result E A) (s : S)
      → P s
      → ((a : A) → r ≡ ok a → Q a)
      → (P s → X s)
      → Post (λ a u. Q a × P u) X (r, s)
  frame-Post P X Q (ok a) s h q out = (q a refl, h)
  frame-Post P X Q (err e) s h q out = out h

  -- An action that keeps `P`, and what it returns
  pub Triple-frame :
      {P X : S → Type 0} {Q : A → Type 0} (m : Action S E A)
      → Keeps P m
      → Returns P Q m
      → ((s : S) → P s → X s)
      → Triple P m (λ a u. Q a × P u) X
  Triple-frame {P} {X} {Q} m km rm out = record {
    at = λ s h. frame-Post P X Q (m s).0 (m s).1 (km.at s h) (rm.result s h) (out (m s).1);
  }

module _ {S E A : Type 0} where
  keep-Post :
      (P X : S → Type 0) (r : Result E A) (s : S) → P s → (P s → X s) → Post (λ _ u. P u) X (r, s)
  keep-Post P X (ok a) s h out = h
  keep-Post P X (err e) s h out = out h

  pub Triple-keep :
      {P X : S → Type 0} (m : Action S E A)
      → Keeps P m
      → ((s : S) → P s → X s)
      → Triple P m (λ _ u. P u) X
  Triple-keep {P} {X} m km out = record {
    at = λ s h. keep-Post P X (m s).0 (m s).1 (km.at s h) (out (m s).1);
  }

module _ {S E A : Type 0} (Q : A → S → Type 0) (X : S → Type 0) where
  pub Post-intro :
      (p : Result E A × S)
      → ((a : A) → p.0 ≡ ok a → Q a p.1)
      → ((e : E) → p.0 ≡ err e → X p.1)
      → Post Q X p
  Post-intro (ok a, s) good bad = good a refl
  Post-intro (err e, s) good bad = bad e refl

  pub Post-ok : (p : Result E A × S) (a : A) → Post Q X p → p.0 ≡ ok a → Q a p.1
  Post-ok (ok b, s) a h e = ground (arith, h)
  Post-ok (err x, s) a h e = cc

module _ {S E A B : Type 0} {P X : S → Type 0} {R : B → S → Type 0} where
  -- A block that begins with an action that keeps `P`; the rest may use what that returns.
  pub Triple-frame_bind :
      (Q : A → Type 0) (m : Action S E A) (f : A → Action S E B)
      → Keeps P m
      → Returns P Q m
      → ((s : S) → P s → X s)
      → ((a : A) → Q a → Triple P (f a) R X)
      → Triple P (m >>= f) R X
  Triple-frame_bind Q m f km rm out tf =
      Triple-bind (λ a u. Q a × P u) m f (Triple-frame m km rm out)
        λ a. record { at = λ s h. (tf a h.0).at s h.1 }

module _ {S E A : Type 0} (Q R : A → S → Type 0) (X Y : S → Type 0) where
  weaken-Post :
      (p : Result E A × S)
      → Post Q X p
      → ((a : A) (s : S) → Q a s → R a s)
      → ((s : S) → X s → Y s)
      → Post R Y p
  weaken-Post (ok a, s) h good bad = good a s h
  weaken-Post (err e, s) h good bad = bad s h

module _ {S E A : Type 0} {P X Y : S → Type 0} {Q R : A → S → Type 0} where
  pub Triple-weaken :
      {m : Action S E A}
      → Triple P m Q X
      → ((a : A) (s : S) → Q a s → R a s)
      → ((s : S) → X s → Y s)
      → Triple P m R Y
  Triple-weaken {m} tm good bad = record {
    at = λ s h. weaken-Post Q R X Y (m s) (tm.at s h) good bad;
  }

module _ {S E F A : Type 0} {P X Y : S → Type 0} {Q : A → S → Type 0} where
  pub Triple-attempt :
      (m : Action S E A)
      → Triple P m Q X
      → Triple {E = F} P (attempt m) (λ outcome s. Post Q X (outcome, s)) Y
  Triple-attempt m tm = record { at = λ s h. tm.at s h }

module _ {S E A : Type 0} {P X : S → Type 0} {Q : A → S → Type 0} where
  pub Triple-pure : (a : A) → ((s : S) → P s → Q a s) → Triple {E = E} P (pure a) Q X
  Triple-pure a q = record { at = λ s h. q s h }

module _ {S E A : Type 0} (Q : A → S → Type 0) (X : S → Type 0) where
  pub if-Post :
      (test : Bool) (p q : Result E A × S)
      → Post Q X p
      → Post Q X q
      → Post Q X (if test then p else q)
  if-Post true p q hp hq = hp
  if-Post false p q hp hq = hq

module _ {S E A : Type 0} {P P' X : S → Type 0} {Q : A → S → Type 0} where
  -- The same from fewer states
  pub Triple-from : {m : Action S E A} → ((s : S) → P' s → P s) → Triple P m Q X → Triple P' m Q X
  Triple-from before tm = record { at = λ s h. tm.at s (before s h) }

module _ {S E A : Type 0} {P X : S → Type 0} where
  -- Two branches, of which each has its own end
  pub Triple-if :
      (Q : Bool → S → Type 0) (test : Bool) (m n : Action S E A)
      → Triple P m (λ _. Q true) X
      → Triple P n (λ _. Q false) X
      → Triple P (if test then m else n) (λ _. Q test) X
  Triple-if Q true m n tm tn = tm
  Triple-if Q false m n tm tn = tn

module _ {S E A : Type 0} {P X : S → Type 0} {Q : A → S → Type 0} where
  -- Each branch may use the test.
  pub Triple-if_of :
      (test : Bool) (m n : Action S E A)
      → (test ≡ true → Triple P m Q X)
      → (test ≡ false → Triple P n Q X)
      → Triple P (if test then m else n) Q X
  Triple-if_of true m n tm tn = tm refl
  Triple-if_of false m n tm tn = tn refl

  pub Triple-true :
      {m : Action S E A} (n : Action S E A) (test : Bool)
      → test ≡ true
      → Triple P m Q X
      → Triple P (if test then m else n) Q X
  Triple-true n true e tm = tm
  Triple-true n false e tm = cc

pub Post-same : {S E A : Type 0} (X : S → Type 0) (p : Result E A × S) → Post (λ _. X) X p → X p.1
Post-same X (ok a, s) h = h
Post-same X (err x, s) h = h
