-- ===== src/Alerts/Unique.antt =====
-- Open events of internal/alerts: at most one for a rule, a tenant and a bucket.
use osspilot_ops_api.Common.{
  ℕ, eqb, ◌≡◌, refl, Bool, true, false, ◌&&◌, Option, none, some, List, [], ◌∷◌, map, any, All, ◌⊎◌,
  arith, if◌then◌else◌, inl, inr, Bool-cases,
}
use osspilot_ops_api.Schema.Alerts.{EventRow}
use osspilot_ops_api.Alerts.Rows.{forget_rule}
use osspilot_ops_api.Alerts.Events.{
  is_open, equals, same_id, is_unresolved, acknowledge_row, resolve_row,
}
use osspilot_ops_api.Alerts.Keeps.{IsKept}
use osspilot_ops_api.Alerts.Statuses.{HasStatus, HasStatus-IsKept}

-- `column = column`: NULLs are not equal.
abbrev pub same_rule : Option ℕ → Option ℕ → Bool
same_rule r none = false
same_rule r (some n) = equals r n

abbrev pub clash : EventRow → EventRow → Bool
clash x y =
    is_open x
    && is_open y
    && same_rule x.rule_id y.rule_id
    && same_id x.tenant_id y.tenant_id
    && same_id x.bucket_id y.bucket_id

unfoldable pub Unique : List EventRow → Type 0
Unique [] = Unit
Unique (e ∷ es) = (any (clash e) es ≡ false) × Unique es

-- What an update may make of an event without a new clash: the keys stay, or the rule is forgotten;
-- what was not open is not open.
pub record Change (x y : EventRow) : Type 0 where
  pub tenant : y.tenant_id ≡ x.tenant_id
  pub bucket : y.bucket_id ≡ x.bucket_id
  pub opens : (is_open y ≡ false) ⊎ (is_open y ≡ is_open x)
  pub rule : (y.rule_id ≡ none) ⊎ (y.rule_id ≡ x.rule_id)

none-same_rule : (r : Option ℕ) → same_rule none r ≡ false
none-same_rule none = refl
none-same_rule (some n) = refl

clash-Change :
    (x y x' y' : EventRow) → Change x x' → Change y y' → clash x y ≡ false → clash x' y' ≡ false
clash-Change x y x' y' c d h = rw c.tenant (
    rw c.bucket (
      rw d.tenant (
        rw d.bucket (elim c.opens [
          | inl closed ↦ ground arith
          | inr same ↦ elim d.opens [
            | inl closed ↦ ground arith
            | inr same' ↦ elim c.rule [
              | inl gone ↦ rw gone (rw (none-same_rule y'.rule_id) (ground arith))
              | inr kept ↦ elim d.rule [
                | inl gone ↦ rw gone (ground arith)
                | inr kept' ↦ rw kept (rw kept' (rw same (rw same' h)))
              ]
            ]
          ]
        ]))))

module _ (f : EventRow → EventRow) (change : (e : EventRow) → HasStatus e → Change e (f e)) where
  any-map_change :
      (x : EventRow) (es : List EventRow)
      → HasStatus x
      → All HasStatus es
      → any (clash x) es ≡ false
      → any (clash (f x)) (map f es) ≡ false
  any-map_change x [] k ks h = refl
  any-map_change x (e ∷ es) k (m, ms) h =
      let apart : clash x e ≡ false = ground arith in
      let others : any (clash x) es ≡ false = ground arith in
      rw (clash-Change x e (f x) (f e) (change x k) (change e m) apart)
        (any-map_change x es k ms others)

  pub Unique-map : (es : List EventRow) → All HasStatus es → Unique es → Unique (map f es)
  unfolding Unique
  Unique-map [] ks h = tt
  Unique-map (e ∷ es) (k, ks) (h, hs) = (any-map_change e es k ks h, Unique-map es ks hs)

pub Change-refl : (e : EventRow) → Change e e
Change-refl e = record { tenant = refl; bucket = refl; opens = inr refl; rule = inr refl }

acknowledges-Change :
    (id user_id at : ℕ) (e : EventRow) (test : Bool)
    → is_unresolved id e ≡ test
    → HasStatus e
    → Change e (if test then acknowledge_row user_id at e else e)
acknowledges-Change id user_id at e true unresolved h = record {
  tenant = refl;
  bucket = refl;
  opens = inr (ground arith);
  rule = inr refl;
}
acknowledges-Change id user_id at e false unresolved h = Change-refl e

pub resolves-Change :
    (at : ℕ) (e : EventRow) (test : Bool) → Change e (if test then resolve_row at e else e)
resolves-Change at e true = record {
  tenant = refl;
  bucket = refl;
  opens = inl refl;
  rule = inr refl;
}
resolves-Change at e false = Change-refl e

forget_rule-cases : (id : ℕ) (r : Option ℕ) → (forget_rule id r ≡ none) ⊎ (forget_rule id r ≡ r)
forget_rule-cases id none = inl refl
forget_rule-cases id (some n) = elim (Bool-cases (eqb n id)) [
  | inl own ↦ inl (ground arith)
  | inr other ↦ inr (ground arith)
]

-- Statuses are known and open events are unique.
abbrev pub OneOpen : List EventRow → Type 0
OneOpen es = All HasStatus es × Unique es

pub OneOpen-IsKept : IsKept OneOpen
OneOpen-IsKept = record {
  acknowledges = λ id user_id at es h. (
    HasStatus-IsKept.acknowledges id user_id at es h.0,
    Unique-map _ (λ e k. acknowledges-Change id user_id at e (is_unresolved id e) refl k) es h.0
        h.1,
  );
  resolves = λ id at es h. (
    HasStatus-IsKept.resolves id at es h.0,
    Unique-map _ (λ e k. resolves-Change at e (is_unresolved id e)) es h.0 h.1,
  );
  forgets = λ id es h. (
    HasStatus-IsKept.forgets id es h.0,
    Unique-map _
        (λ e k. record {
          tenant = refl;
          bucket = refl;
          opens = inr refl;
          rule = forget_rule-cases id e.rule_id;
        })
        es h.0 h.1,
  );
}
