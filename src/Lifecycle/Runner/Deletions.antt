-- ===== src/Lifecycle/Runner/Deletions.antt =====
-- Which objects `deletePrefix` deletes.
use osspilot_ops_api.Common.{
  ℕ, zero, suc, String, ◌≡◌, Bool, true, List, [], ◌∷◌, All, some, arith, Option-cases, inl, inr,
}
use osspilot_ops_api.Lifecycle.Runner.{
  ObjectInfo, Page, Client, is_expired, delete_one, delete_items, delete_pages,
}

-- What listings leave true and what they say of their items, and what the deletion of a kept key
-- leaves true when a listing gave the key with an expired time.
pub record Preserved {W : Type 0} (s3 : Client W) (now : ℕ) (bucket : String) (days : ℕ)
    (keep : String → Bool) (Seen : ObjectInfo → Type 0) (P : W → Type 0) : Type 0 where
  pub listed : (prefix token : String) (w : W) → P w → P (s3.list_objects bucket prefix token w).1
  pub items :
      (prefix token : String) (w : W) (page : Page ObjectInfo String)
      → P w
      → (s3.list_objects bucket prefix token w).0 ≡ some page
      → All Seen page.items
  pub deleted :
      (obj : ObjectInfo) (w : W)
      → Seen obj
      → keep obj.key ≡ true
      → is_expired now days obj.last_modified ≡ true
      → P w
      → P (s3.delete_object bucket obj.key w).1

module _ {W : Type 0} (s3 : Client W) (now : ℕ) (bucket : String) (days : ℕ) (keep : String → Bool)
    (Seen : ObjectInfo → Type 0) (P : W → Type 0)
    (kept : Preserved s3 now bucket days keep Seen P) where
  delete_one-P :
      (obj : ObjectInfo) (n : ℕ) (w : W)
      → Seen obj
      → P w
      → P (delete_one s3 now bucket days keep obj n w).1
  unfolding delete_one
  delete_one-P obj n w seen p = ground (arith, kept.deleted obj w seen)

  delete_items-P :
      (items : List ObjectInfo) (n : ℕ) (w : W)
      → All Seen items
      → P w
      → P (delete_items s3 now bucket days keep items n w).1
  unfolding delete_items
  delete_items-P [] n w seen p = p
  delete_items-P (obj ∷ items) n w (seen, others) p = ground (
    arith,
    delete_items-P items (delete_one s3 now bucket days keep obj n w).0
        (delete_one s3 now bucket days keep obj n w).1 others (delete_one-P obj n w seen p),
  )

  -- `deletePrefix` keeps true, on any fuel, whatever the listings and the deletion of a kept key
  -- keep true, where the deletion is of an object that a listing gave with an expired time: it
  -- changes the store in no other way.
  pub delete_pages-P :
      (fuel : ℕ) (prefix token : String) (n : ℕ) (w : W)
      → P w
      → P (delete_pages s3 now bucket days keep fuel prefix token n w).1
  unfolding delete_pages
  delete_pages-P zero prefix token n w p = p
  delete_pages-P (suc fuel) prefix token n w p =
      let after_listing = kept.listed prefix token w p in
      let world = (s3.list_objects bucket prefix token w).1 in
      elim (Option-cases (s3.list_objects bucket prefix token w).0) [
        | inl bad ↦ ground arith
        | inr (page, good) ↦
            let after = delete_items s3 now bucket days keep page.items n world in
            let seen = kept.items prefix token w page p good in
            let after_items = delete_items-P page.items n world seen after_listing in
            ground
              (arith, delete_pages-P fuel prefix page.next after.0 after.1 after_items, after_items)
      ]
