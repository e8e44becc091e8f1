-- ===== src/Grants/Tests.antt =====
-- A request that names a bucket twice.
use osspilot_ops_api.Common.{ℕ, eqb, any, ◌⊎◌, false, true, ◌≡◌, refl, none, some, List, [], ◌∷◌}
use osspilot_ops_api.Common.Int.{pos, negsuc}
use osspilot_ops_api.Grants.{unique_ids}
use osspilot_ops_api.Grants.Ids.{IsDistinct, is_bad, is_id, unique_ids_lem}

unique_ids_lem_example :
    ((unique_ids (pos 3 ∷ negsuc 0 ∷ []) ≡ none) × (any is_bad (pos 3 ∷ negsuc 0 ∷ []) ≡ true))
    ⊎ ((out : List ℕ) × (unique_ids (pos 3 ∷ negsuc 0 ∷ []) ≡ some out)
        × (any is_bad (pos 3 ∷ negsuc 0 ∷ []) ≡ false)
        × IsDistinct out
        × ((k : ℕ) → any (eqb k) out ≡ any (is_id k) (pos 3 ∷ negsuc 0 ∷ [])))
unique_ids_lem_example = unique_ids_lem (pos 3 ∷ negsuc 0 ∷ [])

kept_once : unique_ids (pos 3 ∷ pos 1 ∷ pos 3 ∷ []) ≡ some (3 ∷ 1 ∷ [])
unfolding unique_ids
kept_once = refl
