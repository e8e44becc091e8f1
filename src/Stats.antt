-- ===== src/Stats.antt =====
-- internal/stats/period.go: rankings and periods.
pub mod Ranking
pub mod Rows
mod Tests
use osspilot_ops_api.Common.{
  ℕ, String, ◌||◌, Option, none, some, List, [], ◌∷◌, map, take, ◌==◌, if◌then◌else◌,
}
use osspilot_ops_api.Common.Int.{ℤ, pos, negsuc, ltb_int}
use osspilot_ops_api.Action.{Result, ok, err}

-- `tenantRank`
pub record TenantRank (I : Type 0) : Type 0 where
  pub item : I
  pub used : ℤ

-- The clamping of `limit`; `take` stops at the end of the rows.
abbrev pub clamped : ℤ → ℕ
clamped (pos n) = n
clamped (negsuc n) = 0

module _ {I : Type 0} where
  -- A row before the rows that it does not fall behind: equal rows keep their order.
  unfoldable pub insert_rank : TenantRank I → List (TenantRank I) → List (TenantRank I)
  insert_rank x [] = x ∷ []
  insert_rank x (y ∷ ys) =
      let later = insert_rank x ys in if ltb_int x.used y.used then y ∷ later else x ∷ y ∷ ys

  -- `sort.SliceStable` by falling usage
  unfoldable pub sort_ranks : List (TenantRank I) → List (TenantRank I)
  unfolding insert_rank
  sort_ranks [] = []
  sort_ranks (x ∷ xs) = insert_rank x (sort_ranks xs)

  -- `topByUsed`
  unfoldable pub top_by_used : List (TenantRank I) → ℤ → List I
  unfolding sort_ranks
  top_by_used rows limit =
      map (λ (r : TenantRank I). r.item) (take (clamped limit) (sort_ranks rows))

-- `parsePeriod`
unfoldable pub parse_period : String → Result String String
parse_period raw =
    if raw == ""
    then ok "24h"
    else if raw == "24h" || raw == "7d" || raw == "30d"
    then ok raw
    else err "period must be 24h, 7d, or 30d"
