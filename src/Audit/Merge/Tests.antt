-- ===== src/Audit/Merge/Tests.antt =====
-- Two short logs.
use osspilot_ops_api.Common.{
  ℕ, ◌+◌, ◌^◌, ◌≡◌, ◌≤◌, ◌⊎◌, ◌++◌, Bool, refl, length, arith, none, some, List, [], ◌∷◌,
}
use osspilot_ops_api.Common.Int.{pos}
use osspilot_ops_api.Audit.Merge.{Entry, after, merge_page}
use osspilot_ops_api.Audit.Merge.Order.{IsDescending, tally, merge_page-IsDescending}

abbrev entry : ℕ → ℕ → Entry
entry id at = record {
  id = id;
  created_at = at;
  row = record {
    user_id = none;
    username = none;
    tenant_id = none;
    tenant_name = none;
    bucket_name = none;
    object_key = none;
    action = "login";
    source_ip = none;
    user_agent = none;
    status = "success";
    error_message = none;
  };
}

abbrev ops : List Entry
ops = entry 4 9 ∷ entry 1 2 ∷ []

abbrev tenant : List Entry
tenant = entry 7 9 ∷ entry 6 5 ∷ []

second_page : merge_page ops tenant (pos 2) (pos 2) (pos 2) (pos 3) ≡ some (entry 1 2 ∷ [], pos 4)
unfolding merge_page after
second_page = refl

-- A page whose start wraps around to -4: `merged[-4:0]` panics.
wrapped_page : merge_page ops tenant (pos 2) (pos 2) (pos (2 ^ 62)) (pos 4) ≡ none
unfolding merge_page
wrapped_page = refl

merge_page-IsDescending_example :
    (before rows behind : List Entry) × (merge_page ops tenant (pos 2) (pos 2) (pos 2) (pos 2)
      ≡ some (rows, pos 4))
    × IsDescending (before ++ (rows ++ behind))
    × ((p : Entry → Bool) → tally p (before ++ (rows ++ behind)) ≡ tally p ops + tally p tenant)
    × ((length before ≡ 2) ⊎ ((length before ≤ 2) × (rows ++ behind ≡ [])))
    × ((length rows ≡ 2) ⊎ ((length rows ≤ 2) × (behind ≡ [])))
unfolding IsDescending after
merge_page-IsDescending_example =
    merge_page-IsDescending ops tenant 2 2 2 2 ((refl, tt), (tt, tt)) ((refl, tt), (tt, tt))
      (omega arith) (omega arith) (omega arith) (omega arith)
