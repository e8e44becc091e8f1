-- ===== src/Stats/Ranking.antt =====
-- The rows that `topByUsed` of internal/stats returns.
use osspilot_ops_api.Common.{
  ℕ, zero, suc, ◌+◌, ◌≤◌, ◌≡◌, refl, sym, Bool, true, false, ◌⊎◌, List, [], ◌∷◌, ◌++◌, map, take,
  drop, length, All, Bool-cases, inl, inr, arith, if◌then◌else◌,
}
use osspilot_ops_api.Common.Int.{ℤ, pos, negsuc, leb_int, ltb_int}
use osspilot_ops_api.Stats.{TenantRank, insert_rank, sort_ranks, clamped, top_by_used}

leb_int_trans : (a b c : ℤ) → leb_int a b ≡ true → leb_int b c ≡ true → leb_int a c ≡ true
leb_int_trans (pos a) (pos b) (pos c) h k = ground arith
leb_int_trans (pos a) (pos b) (negsuc c) h k = cc
leb_int_trans (pos a) (negsuc b) c h k = cc
leb_int_trans (negsuc a) (pos b) (pos c) h k = refl
leb_int_trans (negsuc a) (pos b) (negsuc c) h k = cc
leb_int_trans (negsuc a) (negsuc b) (pos c) h k = refl
leb_int_trans (negsuc a) (negsuc b) (negsuc c) h k = ground arith

ltb→leb : (a b : ℤ) → ltb_int a b ≡ true → leb_int a b ≡ true
ltb→leb (pos a) (pos b) h = ground arith
ltb→leb (pos a) (negsuc b) h = cc
ltb→leb (negsuc a) (pos b) h = refl
ltb→leb (negsuc a) (negsuc b) h = ground arith

not_ltb→leb : (a b : ℤ) → ltb_int a b ≡ false → leb_int b a ≡ true
not_ltb→leb (pos a) (pos b) h = ground arith
not_ltb→leb (pos a) (negsuc b) h = refl
not_ltb→leb (negsuc a) (pos b) h = cc
not_ltb→leb (negsuc a) (negsuc b) h = ground arith

-- How many rows may be shown: none below a limit of 1
abbrev pub shown : ℤ → ℕ
shown (pos n) = n
shown (negsuc n) = 0

clamped-shown : (limit : ℤ) → clamped limit ≡ shown limit
clamped-shown (pos n) = refl
clamped-shown (negsuc n) = refl

module _ {I : Type 0} where
  unfoldable pub IsRanked : List (TenantRank I) → Type 0
  IsRanked [] = Unit
  IsRanked (x ∷ xs) = All (λ y. leb_int y.used x.used ≡ true) xs × IsRanked xs

  -- How many rows pass a test
  abbrev pub tally : (TenantRank I → Bool) → List (TenantRank I) → ℕ
  tally p [] = 0
  tally p (x ∷ xs) = (if p x then 1 else 0) + tally p xs

  tally-insert_rank :
      (p : TenantRank I → Bool) (x : TenantRank I) (xs : List (TenantRank I))
      → tally p (insert_rank x xs) ≡ tally p (x ∷ xs)
  unfolding insert_rank
  tally-insert_rank p x [] = refl
  tally-insert_rank p x (y ∷ ys) = ground (arith, tally-insert_rank p x ys)

  tally-sort_ranks :
      (p : TenantRank I → Bool) (xs : List (TenantRank I)) → tally p (sort_ranks xs) ≡ tally p xs
  unfolding sort_ranks
  tally-sort_ranks p [] = refl
  tally-sort_ranks p (x ∷ xs) =
      ground (arith, tally-insert_rank p x (sort_ranks xs), tally-sort_ranks p xs)

  All-insert_rank :
      (n : ℤ) (x : TenantRank I) (xs : List (TenantRank I))
      → leb_int x.used n ≡ true
      → All (λ y. leb_int y.used n ≡ true) xs
      → All (λ y. leb_int y.used n ≡ true) (insert_rank x xs)
  unfolding insert_rank
  All-insert_rank n x [] h k = (h, tt)
  All-insert_rank n x (y ∷ ys) h (k, ks) = ground (arith, All-insert_rank n x ys h ks)

  weaken :
      (m n : ℤ) (xs : List (TenantRank I))
      → leb_int m n ≡ true
      → All (λ y. leb_int y.used m ≡ true) xs
      → All (λ y. leb_int y.used n ≡ true) xs
  weaken m n [] h k = tt
  weaken m n (x ∷ xs) h (k, ks) = (leb_int_trans x.used m n k h, weaken m n xs h ks)

  IsRanked-insert_rank :
      (x : TenantRank I) (xs : List (TenantRank I)) → IsRanked xs → IsRanked (insert_rank x xs)
  unfolding insert_rank IsRanked
  IsRanked-insert_rank x [] h = (tt, tt)
  IsRanked-insert_rank x (y ∷ ys) (h, hs) = elim (Bool-cases (ltb_int x.used y.used)) [
    | inl less ↦
        rw less
          (All-insert_rank y.used x ys (ltb→leb x.used y.used less) h, IsRanked-insert_rank x ys hs)
    | inr more ↦
        let below = not_ltb→leb x.used y.used more in
        rw more ((below, weaken y.used x.used ys below h), (h, hs))
  ]

  IsRanked-sort_ranks : (xs : List (TenantRank I)) → IsRanked (sort_ranks xs)
  unfolding sort_ranks IsRanked
  IsRanked-sort_ranks [] = tt
  IsRanked-sort_ranks (x ∷ xs) = IsRanked-insert_rank x (sort_ranks xs) (IsRanked-sort_ranks xs)

  take-drop : (n : ℕ) (xs : List (TenantRank I)) → take n xs ++ drop n xs ≡ xs
  take-drop zero xs = refl
  take-drop (suc n) [] = refl
  take-drop (suc n) (x ∷ xs) = ground (arith, take-drop n xs)

  -- A prefix is full, or nothing is left behind it.
  take-full :
      (n : ℕ) (xs : List (TenantRank I))
      → (length (take n xs) ≡ n) ⊎ ((length (take n xs) ≤ n) × (drop n xs ≡ []))
  take-full zero xs = inl refl
  take-full (suc n) [] = inr (omega arith, refl)
  take-full (suc n) (x ∷ xs) = elim (take-full n xs) [
    | inl full ↦ inl (omega (arith, full))
    | inr (short, nothing) ↦ inr (omega (arith, short), nothing)
  ]

  -- `topByUsed` returns the items of the first rows of a ranking by falling usage that has every
  -- row as often as the rows it is given: as many rows as the limit, 0 for a negative one, or all
  -- the rows where there are fewer.
  pub top_by_used_lem :
      (rows : List (TenantRank I)) (limit : ℤ)
      → (best : List (TenantRank I)) × (others : List (TenantRank I)) × (top_by_used rows limit
          ≡ map (λ (r : TenantRank I). r.item) best)
        × ((length best ≡ shown limit) ⊎ ((length best ≤ shown limit) × (others ≡ [])))
        × IsRanked (best ++ others)
        × ((p : TenantRank I → Bool) → tally p (best ++ others) ≡ tally p rows)
  unfolding top_by_used
  top_by_used_lem rows limit =
      let sorted = sort_ranks rows in
      let whole = take-drop (clamped limit) sorted in
      (
        take (clamped limit) sorted,
        drop (clamped limit) sorted,
        refl,
        rw (sym (clamped-shown limit)) (take-full (clamped limit) sorted),
        rw whole (IsRanked-sort_ranks rows),
        λ p. rw whole (tally-sort_ranks p rows),
      )
