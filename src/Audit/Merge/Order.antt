-- ===== src/Audit/Merge/Order.antt =====
-- The order of merged logs.
use osspilot_ops_api.Common.{
  ℕ, zero, suc, ltb, leb, ◌+◌, ◌-◌, ◌*◌, ◌≤◌, ◌<◌, ◌%◌, leb→le, ◌^◌, ◌⊎◌, ◌++◌, refl, sym, ap, Bool,
  if◌then◌else◌, take, drop, some, ◌≡◌, true, false, List, [], ◌∷◌, length, All, Bool-cases, inl,
  inr, arith,
}
use osspilot_ops_api.Common.Int.{ℤ, pos, negsuc, leb_int, ltb_int, add_int64, mul_int64, signed}
use osspilot_ops_api.Audit.Merge.{Entry, after, merge, slice, with_total, merge_page}

-- No entry is after an earlier one.
unfoldable pub IsDescending : List Entry → Type 0
IsDescending [] = Unit
IsDescending (x ∷ xs) = All (λ y. after y x ≡ false) xs × IsDescending xs

after_asymmetric : (a b : Entry) → after a b ≡ true → after b a ≡ false
unfolding after
after_asymmetric a b h = ground arith

after_transitive : (a b c : Entry) → after a b ≡ false → after b c ≡ false → after a c ≡ false
unfolding after
after_transitive a b c h k = ground arith

below_both :
    (a b : Entry) (xs : List Entry)
    → after a b ≡ false
    → All (λ y. after y a ≡ false) xs
    → All (λ y. after y b ≡ false) xs
below_both a b [] h k = tt
below_both a b (x ∷ xs) h (k, ks) = (after_transitive x a b k h, below_both a b xs h ks)

-- A merge has the entries of both lists.
All-merge : (P : Entry → Type 0) (xs ys : List Entry) → All P xs → All P ys → All P (merge xs ys)
unfolding merge
All-merge P [] ys h k = k
All-merge P (x ∷ xs) [] (h, hs) k = (h, All-merge P xs [] hs tt)
All-merge P (x ∷ xs) (y ∷ ys) (h, hs) (k, ks) =
    let here = All-merge P xs (y ∷ ys) hs (k, ks) in
    let there = All-merge P (x ∷ xs) ys (h, hs) ks in
    elim (Bool-cases (after x y)) [ inl yes1 ↦ rw yes1 (h, here) | inr no1 ↦ rw no1 (k, there) ]

-- The merge of two descending logs is descending.
merge-IsDescending :
    (xs ys : List Entry) → IsDescending xs → IsDescending ys → IsDescending (merge xs ys)
unfolding merge IsDescending
merge-IsDescending [] ys h k = k
merge-IsDescending (x ∷ xs) [] (h, hs) k =
    (All-merge (λ z. after z x ≡ false) xs [] h tt, merge-IsDescending xs [] hs tt)
merge-IsDescending (x ∷ xs) (y ∷ ys) (h, hs) (k, ks) =
    let here = merge-IsDescending xs (y ∷ ys) hs (k, ks) in
    let there = merge-IsDescending (x ∷ xs) ys (h, hs) ks in
    elim (Bool-cases (after x y)) [
      | inl yes1 ↦
          let low = after_asymmetric x y yes1 in
          rw yes1
            (All-merge (λ z. after z x ≡ false) xs (y ∷ ys) h (low, below_both y x ys low k), here)
      | inr no1 ↦
          rw no1
            (All-merge (λ z. after z y ≡ false) (x ∷ xs) ys (no1, below_both x y xs no1 h) k, there)
    ]

-- How many entries pass a test
abbrev pub tally : (Entry → Bool) → List Entry → ℕ
tally p [] = 0
tally p (x ∷ xs) = (if p x then 1 else 0) + tally p xs

tally-merge :
    (p : Entry → Bool) (xs ys : List Entry) → tally p (merge xs ys) ≡ tally p xs + tally p ys
unfolding merge
tally-merge p [] ys = omega arith
tally-merge p (x ∷ xs) [] = omega (arith, tally-merge p xs [])
tally-merge p (x ∷ xs) (y ∷ ys) =
    let here = tally-merge p xs (y ∷ ys) in
    let there = tally-merge p (x ∷ xs) ys in
    elim (Bool-cases (after x y)) [
      | inl yes1 ↦ rw yes1 (omega (arith, here))
      | inr no1 ↦ rw no1 (omega (arith, there))
    ]

take-drop : (n : ℕ) (xs : List Entry) → take n xs ++ drop n xs ≡ xs
take-drop zero xs = refl
take-drop (suc n) [] = refl
take-drop (suc n) (x ∷ xs) = ground (arith, take-drop n xs)

take-full :
    (n : ℕ) (xs : List Entry)
    → (length (take n xs) ≡ n) ⊎ ((length (take n xs) ≤ n) × (drop n xs ≡ []))
take-full zero xs = inl refl
take-full (suc n) [] = inr (omega arith, refl)
take-full (suc n) (x ∷ xs) = elim (take-full n xs) [
  | inl full ↦ inl (omega (arith, full))
  | inr (short, nothing) ↦ inr (omega (arith, short), nothing)
]

length-drop : (n : ℕ) (xs : List Entry) → length (drop n xs) ≡ length xs - n
length-drop zero xs = omega arith
length-drop (suc n) [] = omega arith
length-drop (suc n) (x ∷ xs) = omega (arith, length-drop n xs)

take-more : (n : ℕ) (xs : List Entry) → length xs ≤ n → take (length xs) xs ≡ take n xs
take-more zero [] h = refl
take-more (suc n) [] h = refl
take-more zero (x ∷ xs) h = ground arith
take-more (suc n) (x ∷ xs) h = ground (arith, take-more n xs (omega (arith, h)))

take-nil : (n : ℕ) → take {A = Entry} n [] ≡ []
take-nil zero = refl
take-nil (suc n) = refl

drop-nothing : (n : ℕ) (xs : List Entry) → length xs ≤ n → drop n xs ≡ []
drop-nothing zero [] h = refl
drop-nothing zero (x ∷ xs) h = ground arith
drop-nothing (suc n) [] h = refl
drop-nothing (suc n) (x ∷ xs) h = drop-nothing n xs (omega (arith, h))

signed_fits : (m : ℕ) → m < 2 ^ 63 → signed (m % 2 ^ 64) ≡ pos m
signed_fits m fits = ground arith

less_one : (p : ℕ) → 1 ≤ p → p < 2 ^ 63 → add_int64 (pos p) (negsuc 0) ≡ pos (p - 1)
unfolding add_int64
less_one p first small = ground arith

mul_fits :
    (q n : ℕ) → q < 2 ^ 63 → n < 2 ^ 63 → q * n < 2 ^ 63 → mul_int64 (pos q) (pos n) ≡ pos (q * n)
unfolding mul_int64
mul_fits q n small narrow fits =
    let left : q % 2 ^ 64 ≡ q = omega arith in
    let right : n % 2 ^ 64 ≡ n = omega arith in rw left (rw right (signed_fits (q * n) fits))

-- `(page-1)*pageSize` and `start + pageSize` where they fit
start_of :
    (p n : ℕ)
    → 1 ≤ p
    → p < 2 ^ 63
    → (p - 1) * n + n < 2 ^ 63
    → mul_int64 (add_int64 (pos p) (negsuc 0)) (pos n) ≡ pos ((p - 1) * n)
start_of p n first small fits =
    rw (less_one p first small)
      (mul_fits (p - 1) n (omega arith) (omega (arith, fits)) (omega (arith, fits)))

end_of : (a n : ℕ) → a + n < 2 ^ 63 → add_int64 (pos a) (pos n) ≡ pos (a + n)
unfolding add_int64
end_of a n fits = ground arith

-- The page from a start on, cut at the end of the entries
page_at :
    (merged : List Entry) (s n : ℕ) (total : ℤ)
    → (if leb_int (pos (length merged)) (pos s)
        then some ([], total)
        else with_total total (
            slice merged (pos s) (
              if ltb_int (pos (length merged)) (pos (s + n))
              then pos (length merged)
              else pos (s + n))))
      ≡ some (take n (drop s merged), total)
page_at merged s n total = elim (Bool-cases (leb (length merged) s)) [
  | inl past ↦ rw past (
      rw (drop-nothing s merged (leb→le (length merged) s past))
        (ap (λ xs. some (xs, total)) (sym (take-nil n))))
  | inr Within ↦
      let inside : ltb (length merged) s ≡ false = ground arith in
      rw Within (elim (Bool-cases (ltb (length merged) (s + n))) [
        | inl cut ↦
            let left = length-drop s merged in
            let all = take-more n (drop s merged) (ground (arith, left, cut)) in
            rw cut (rw inside (ap (λ xs. some (xs, total)) (rw (sym left) all)))
        | inr whole ↦
            let forward : ltb (s + n) s ≡ false = ground arith in
            let width : s + n - s ≡ n = omega arith in rw whole (rw forward (rw width refl))
      ])
]

-- `mergePage` of two descending logs, on numbers that fit 64 bits: the entries of both logs, each as
-- often as they have it, stand in one descending order, and the page is the rows of that order
-- behind the pages before it, as many as the page size or all that are left, with the sum of the
-- totals.
pub merge_page-IsDescending :
    (ops tenant : List Entry) (ops_total tenant_total page page_size : ℕ)
    → IsDescending ops
    → IsDescending tenant
    → ops_total + tenant_total < 2 ^ 63
    → 1 ≤ page
    → page < 2 ^ 63
    → (page - 1) * page_size + page_size < 2 ^ 63
    → (before rows behind : List Entry) × (merge_page ops tenant
          (pos ops_total)
          (pos tenant_total)
          (pos page)
          (pos page_size)
        ≡ some (rows, pos (ops_total + tenant_total)))
      × IsDescending (before ++ (rows ++ behind))
      × ((p : Entry → Bool) → tally p (before ++ (rows ++ behind)) ≡ tally p ops + tally p tenant)
      × ((length before ≡ (page - 1) * page_size)
          ⊎ ((length before ≤ (page - 1) * page_size) × (rows ++ behind ≡ [])))
      × ((length rows ≡ page_size) ⊎ ((length rows ≤ page_size) × (behind ≡ [])))
unfolding merge_page
merge_page-IsDescending ops tenant ops_total tenant_total page page_size h k sum first small fits =
    let start = (page - 1) * page_size in
    let merged = merge ops tenant in
    let rest = drop start merged in
    let whole = take-drop start merged in
    let cut = take-drop page_size rest in
    (
      take start merged,
      take page_size rest,
      drop page_size rest,
      rw (end_of ops_total tenant_total sum) (
          rw (start_of page page_size first small fits) (
            rw (end_of start page_size fits)
              (page_at merged start page_size (pos (ops_total + tenant_total))))),
      rw cut (rw whole (merge-IsDescending ops tenant h k)),
      λ p. rw cut (rw whole (tally-merge p ops tenant)),
      rw cut (take-full start merged),
      take-full page_size rest,
    )
