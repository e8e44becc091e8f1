-- ===== src/Grants.antt =====
-- internal/grants: the grants of buckets to tenant accounts. Here ids.go: the ids of the buckets that
-- a request names.
pub mod Ids
pub mod Rows
pub mod Requests
mod Tests
use osspilot_ops_api.Common.{
  ℕ, zero, suc, eqb, ltb, ◌≡◌, refl, ◌⊎◌, inl, inr, ◌↔◌, Bool, true, false, ◌||◌, Option, none,
  some, List, [], ◌∷◌, ◌++◌, map, any, keep, All, arith, if◌then◌else◌, Bool-cases,
}
use osspilot_ops_api.Common.Int.{ℤ, pos, negsuc}

-- `id < 1` is `none`.
abbrev pub positive_id : ℤ → Option ℕ
positive_id (negsuc n) = none
positive_id (pos zero) = none
positive_id (pos (suc n)) = some (suc n)

-- The loop of `uniqueIDs`; `out` is in the order of the result, and `seen` has its elements.
unfoldable pub unique_from : List ℕ → List ℤ → Option (List ℕ)
unique_from out [] = some out
unique_from out (raw ∷ ids) = elim (positive_id raw) [
  | none ↦ none
  | some id ↦
      let same = unique_from out ids in
      let longer = unique_from (out ++ id ∷ []) ids in if any (eqb id) out then same else longer
]

-- `uniqueIDs`
unfoldable pub unique_ids : List ℤ → Option (List ℕ)
unfolding unique_from
unique_ids ids = unique_from [] ids

-- `exceedsLimit`
unfoldable pub exceeds_limit : ℕ → Option ℤ → Bool
exceeds_limit n none = false
exceeds_limit n (some (negsuc k)) = true
exceeds_limit n (some (pos k)) = ltb k n
