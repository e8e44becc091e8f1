-- ===== src/Lifecycle/Runner/Pages.antt =====
-- Bounds of the inner loops of the worker.
use osspilot_ops_api.Common.{ℕ, ◌+◌, ◌≤◌, String, Bool, List, [], ◌∷◌, arith}
use osspilot_ops_api.Lifecycle.Runner.{
  ObjectInfo, MultipartInfo, Client, max_deletes_per_action, delete_one, delete_items, abort_one,
  abort_items,
}

module _ {W : Type 0} (s3 : Client W) (now : ℕ) (bucket : String) (days : ℕ)
    (keep : String → Bool) where
  delete_one-le :
      (obj : ObjectInfo) (n : ℕ) (w : W)
      → (n ≤ (delete_one s3 now bucket days keep obj n w).0)
        × ((delete_one s3 now bucket days keep obj n w).0 ≤ n + 1)
  unfolding delete_one
  delete_one-le obj n w = ground arith

  pub delete_items-le :
      (items : List ObjectInfo) (n : ℕ) (w : W)
      → n ≤ max_deletes_per_action
      → (n ≤ (delete_items s3 now bucket days keep items n w).0)
        × ((delete_items s3 now bucket days keep items n w).0 ≤ max_deletes_per_action)
  unfolding delete_items
  delete_items-le [] n w h = ground arith
  delete_items-le (obj ∷ items) n w h = ground (
    arith,
    delete_one-le obj n w,
    delete_items-le items (delete_one s3 now bucket days keep obj n w).0
        (delete_one s3 now bucket days keep obj n w).1,
  )

module _ {W : Type 0} (s3 : Client W) (now : ℕ) (bucket : String) (days : ℕ) where
  abort_one-le :
      (u : MultipartInfo) (n : ℕ) (w : W)
      → (n ≤ (abort_one s3 now bucket days u n w).0)
        × ((abort_one s3 now bucket days u n w).0 ≤ n + 1)
  unfolding abort_one
  abort_one-le u n w = ground arith

  pub abort_items-le :
      (items : List MultipartInfo) (n : ℕ) (w : W)
      → n ≤ max_deletes_per_action
      → (n ≤ (abort_items s3 now bucket days items n w).0)
        × ((abort_items s3 now bucket days items n w).0 ≤ max_deletes_per_action)
  unfolding abort_items
  abort_items-le [] n w h = ground arith
  abort_items-le (u ∷ items) n w h = ground (
    arith,
    abort_one-le u n w,
    abort_items-le items (abort_one s3 now bucket days u n w).0
        (abort_one s3 now bucket days u n w).1,
  )
