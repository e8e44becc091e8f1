-- ===== src/Lifecycle/Runner/Ending.antt =====
-- The loops of the worker, over clients whose listings advance.
use osspilot_ops_api.Common.{
  ℕ, zero, suc, ◌≤◌, ◌<◌, ltb, leb, String, ◌≡◌, Bool, true, false, some, arith, Option-cases,
  Bool-cases, ◌==◌, not, ◌||◌, inl, inr,
}
use osspilot_ops_api.Lifecycle.Runner.{
  Page, ObjectInfo, MultipartInfo, Client, Outcome, max_deletes_per_action, delete_items,
  delete_pages, abort_items, abort_pages,
}
use osspilot_ops_api.Lifecycle.Runner.Pages.{delete_items-le, abort_items-le}

-- A listing that says there is more returns a token of lower rank than the one it was given.
unfoldable pub ObjectsAdvance : {W : Type 0} → Client W → String → String → (String → ℕ) → Type 0
ObjectsAdvance {W} s3 bucket prefix rank =
    (token : String) (w : W) (page : Page ObjectInfo String)
    → (s3.list_objects bucket prefix token w).0 ≡ some page
    → page.truncated ≡ true
    → rank page.next < rank token

unfoldable pub UploadsAdvance :
    {W : Type 0} → Client W → String → String → (String → String → ℕ) → Type 0
UploadsAdvance {W} s3 bucket prefix rank =
    (key_marker upload_marker : String) (w : W) (page : Page MultipartInfo (String × String))
    → (s3.list_multipart bucket prefix key_marker upload_marker w).0 ≡ some page
    → page.truncated ≡ true
    → rank page.next.0 page.next.1 < rank key_marker upload_marker

module _ {W : Type 0} (s3 : Client W) (now : ℕ) (bucket : String) (days : ℕ) where
  -- Where every truncated listing advances, fuel above the rank of the token lets `deletePrefix`
  -- end, whatever the other answers of the client are, and the count it returns is between the
  -- count it started with and 2000.
  pub delete_pages_ends :
      (keep : String → Bool) (prefix : String) (rank : String → ℕ)
      → ObjectsAdvance s3 bucket prefix rank
      → (fuel : ℕ) (token : String) (n : ℕ) (w : W) → rank token < fuel
      → n ≤ max_deletes_per_action
      → (o : Outcome) × ((delete_pages s3 now bucket days keep fuel prefix token n w).0 ≡ some o)
        × (n ≤ o.count)
        × (o.count ≤ max_deletes_per_action)
  unfolding delete_pages ObjectsAdvance
  delete_pages_ends keep prefix rank advances zero token n w more h = ground arith
  delete_pages_ends keep prefix rank advances (suc fuel) token n w more h =
      elim (Bool-cases (ltb n max_deletes_per_action)) [
        | inr full ↦
            (record { count = n; failed = false }, ground arith, ground arith, ground arith)
        | inl room ↦ elim (Option-cases (s3.list_objects bucket prefix token w).0) [
          | inl bad ↦
              (record { count = n; failed = true }, ground arith, ground arith, ground arith)
          | inr (page, good) ↦
              let world = (s3.list_objects bucket prefix token w).1 in
              let after = delete_items s3 now bucket days keep page.items n world in
              let bound = delete_items-le s3 now bucket days keep page.items n world h in
              elim (Bool-cases
                (not page.truncated || page.next == "" || leb max_deletes_per_action after.0)) [
                  | inl stop ↦
                      (record { count = after.0; failed = false }, ground arith, bound.0, bound.1)
                  | inr on ↦
                      let less : rank page.next < fuel =
                        ground (arith, advances token w page good) in
                      let (o, e, low, high) =
                        delete_pages_ends keep prefix rank advances fuel page.next after.0 after.1
                          less bound.1 in
                      (o, ground arith, ground (arith, bound, low), high)
                ]
        ]
      ]

  -- Where every truncated listing advances, fuel above the rank of the markers lets
  -- `abortMultipart` end, whatever the other answers of the client are, and the count it returns
  -- is between the count it started with and 2000.
  pub abort_pages_ends :
      (prefix : String) (rank : String → String → ℕ)
      → UploadsAdvance s3 bucket prefix rank
      → (fuel : ℕ) (key_marker upload_marker : String) (n : ℕ) (w : W)
      → rank key_marker upload_marker < fuel
      → n ≤ max_deletes_per_action
      → (o : Outcome) × ((abort_pages s3 now bucket days fuel prefix key_marker upload_marker n w).0
          ≡ some o)
        × (n ≤ o.count)
        × (o.count ≤ max_deletes_per_action)
  unfolding abort_pages UploadsAdvance
  abort_pages_ends prefix rank advances zero key_marker upload_marker n w more h = ground arith
  abort_pages_ends prefix rank advances (suc fuel) key_marker upload_marker n w more h =
      elim (Bool-cases (ltb n max_deletes_per_action)) [
        | inr full ↦
            (record { count = n; failed = false }, ground arith, ground arith, ground arith)
        | inl room ↦
            elim (Option-cases (s3.list_multipart bucket prefix key_marker upload_marker w).0) [
              | inl bad ↦
                  (record { count = n; failed = true }, ground arith, ground arith, ground arith)
              | inr (page, good) ↦
                  let world = (s3.list_multipart bucket prefix key_marker upload_marker w).1 in
                  let after = abort_items s3 now bucket days page.items n world in
                  let bound = abort_items-le s3 now bucket days page.items n world h in
                  elim (Bool-cases (not page.truncated || leb max_deletes_per_action after.0)) [
                    | inl stop ↦
                        (record { count = after.0; failed = false }, ground arith, bound.0, bound.1)
                    | inr on ↦
                        let less : rank page.next.0 page.next.1 < fuel =
                          ground (arith, advances key_marker upload_marker w page good) in
                        let (o, e, low, high) =
                          abort_pages_ends prefix rank advances fuel page.next.0 page.next.1 after.0
                            after.1 less bound.1 in
                        (o, ground arith, ground (arith, bound, low), high)
                  ]
            ]
      ]
