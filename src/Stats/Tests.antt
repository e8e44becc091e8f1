-- ===== src/Stats/Tests.antt =====
-- A ranking of three tenants.
use osspilot_ops_api.Common.{String, ◌≡◌, refl, ◌≤◌, ◌⊎◌, Bool, length, map, List, [], ◌∷◌, ◌++◌}
use osspilot_ops_api.Common.Int.{pos}
use osspilot_ops_api.Stats.{TenantRank, top_by_used}
use osspilot_ops_api.Stats.Ranking.{IsRanked, tally, top_by_used_lem}

abbrev tenants : List (TenantRank String)
tenants =
    record { item = "a"; used = pos 3 }
    ∷ record { item = "b"; used = pos 9 }
    ∷ record { item = "c"; used = pos 9 }
    ∷ []

top_two : top_by_used tenants (pos 2) ≡ "b" ∷ "c" ∷ []
unfolding top_by_used
top_two = refl

top_by_used_lem_example :
    (best : List (TenantRank String)) × (others : List (TenantRank String)) × (top_by_used tenants
        (pos 2)
      ≡ map (λ (r : TenantRank String). r.item) best)
    × ((length best ≡ 2) ⊎ ((length best ≤ 2) × (others ≡ [])))
    × IsRanked (best ++ others)
    × ((p : TenantRank String → Bool) → tally p (best ++ others) ≡ tally p tenants)
top_by_used_lem_example = top_by_used_lem tenants (pos 2)
