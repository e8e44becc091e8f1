-- ===== src/Grants/Ids.antt =====
-- What `uniqueIDs` of internal/grants returns.
use osspilot_ops_api.Common.{
  ℕ, eqb, eqb_iff, ◌≡◌, refl, ◌⊎◌, inl, inr, Bool, true, false, ◌||◌, none, some, List, [], ◌∷◌,
  ◌++◌, any, arith, Bool-cases, Option-cases,
}
use osspilot_ops_api.Common.Int.{ℤ}
use osspilot_ops_api.Grants.{positive_id, unique_from, unique_ids}

unfoldable pub IsDistinct : List ℕ → Type 0
IsDistinct [] = Unit
IsDistinct (x ∷ xs) = (any (eqb x) xs ≡ false) × IsDistinct xs

-- A number that is not a positive id, and one that is the id `k`
abbrev pub is_bad : ℤ → Bool
is_bad raw = elim (positive_id raw) [ none ↦ true | some id ↦ false ]

abbrev pub is_id : ℕ → ℤ → Bool
is_id k raw = elim (positive_id raw) [ none ↦ false | some id ↦ eqb k id ]

any-append : (p : ℕ → Bool) (xs ys : List ℕ) → any p (xs ++ ys) ≡ (any p xs || any p ys)
any-append p [] ys = refl
any-append p (x ∷ xs) ys = ground (arith, any-append p xs ys)

IsDistinct-add :
    (id : ℕ) (xs : List ℕ) → any (eqb id) xs ≡ false → IsDistinct xs → IsDistinct (xs ++ id ∷ [])
unfolding IsDistinct
IsDistinct-add id [] fresh h = (refl, tt)
IsDistinct-add id (x ∷ xs) fresh (h, hs) =
    (ground (arith, any-append (eqb x) xs (id ∷ [])), IsDistinct-add id xs (ground arith) hs)

-- `out` is distinct and holds `k` as `before` or the ids do.
HasIds : List ℕ → List ℤ → List ℕ → Type 0
HasIds before ids out =
    IsDistinct out × ((k : ℕ) → any (eqb k) out ≡ (any (eqb k) before || any (is_id k) ids))

unique_from_lem :
    (ids : List ℤ) (before : List ℕ)
    → IsDistinct before
    → ((unique_from before ids ≡ none) × (any is_bad ids ≡ true))
      ⊎ ((out : List ℕ) × (unique_from before ids ≡ some out)
          × (any is_bad ids ≡ false)
          × HasIds before ids out)
unfolding unique_from HasIds
unique_from_lem [] before h = inr (before, refl, refl, (h, λ k. ground arith))
unique_from_lem (raw ∷ ids) before h = elim (Option-cases (positive_id raw)) [
  | inl bad ↦ inl (ground arith, ground arith)
  | inr (id, good) ↦ elim (Bool-cases (any (eqb id) before)) [
    | inl old ↦ elim (unique_from_lem ids before h) [
      | inl (e, bad) ↦ inl (ground arith, ground arith)
      | inr (out, e, fine, (distinct, members)) ↦ inr (
        out,
        ground arith,
        ground arith,
        (
          distinct,
          λ k. elim (Bool-cases (eqb k id)) [
            | inr other ↦ ground (arith, members k)
            | inl here ↦
                let held : any (eqb k) before ≡ true = rw ((eqb_iff k id).0 here) old in
                ground (arith, members k)
          ],
        ),
      )
    ]
    | inr fresh ↦
        elim (unique_from_lem ids (before ++ id ∷ []) (IsDistinct-add id before fresh h)) [
          | inl (e, bad) ↦ inl (ground arith, ground arith)
          | inr (out, e, fine, (distinct, members)) ↦ inr (
            out,
            ground arith,
            ground arith,
            (distinct, λ k. ground (arith, members k, any-append (eqb k) before (id ∷ []))),
          )
        ]
  ]
]

-- `uniqueIDs` refuses the ids exactly where one is below 1, and else returns each id of the list
-- once and nothing more.
pub unique_ids_lem :
    (ids : List ℤ)
    → ((unique_ids ids ≡ none) × (any is_bad ids ≡ true))
      ⊎ ((out : List ℕ) × (unique_ids ids ≡ some out)
          × (any is_bad ids ≡ false)
          × IsDistinct out
          × ((k : ℕ) → any (eqb k) out ≡ any (is_id k) ids))
unfolding unique_ids HasIds IsDistinct
unique_ids_lem ids = elim (unique_from_lem ids [] tt) [
  | inl refused ↦ inl refused
  | inr (out, e, fine, (distinct, members)) ↦ inr (out, e, fine, distinct, members)
]
