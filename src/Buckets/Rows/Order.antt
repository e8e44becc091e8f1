-- ===== src/Buckets/Rows/Order.antt =====
-- The rows that `List` of internal/buckets/store.go orders.
use mathlib.Core.List.{Memᴰ}
use osspilot_ops_api.Common.{
  String, ◌≡◌, ap, Bool, true, false, List, [], ◌∷◌, map, All, if◌then◌else◌,
}
use osspilot_ops_api.Buckets.Rows.{Bucket, insert_by_name, order_by_name}

module _ {A : Type 0} where
  if-All :
      (P : A → Type 0) (test : Bool) (xs ys : List A)
      → All P xs
      → All P ys
      → All P (if test then xs else ys)
  if-All P true xs ys h k = h
  if-All P false xs ys h k = k

  if-Mem :
      (a : A) (test : Bool) (xs ys : List A)
      → Memᴰ a xs
      → Memᴰ a ys
      → Memᴰ a (if test then xs else ys)
  if-Mem a true xs ys h k = h
  if-Mem a false xs ys h k = k

module _ {A B : Type 0} (f : A → B) where
  pub map-All : (P : B → Type 0) (xs : List A) → All (λ x. P (f x)) xs → All P (map f xs)
  map-All P [] h = tt
  map-All P (x ∷ xs) h = (h.0, map-All P xs h.1)

  pub map-Mem : (a : A) (xs : List A) → Memᴰ a xs → Memᴰ (f a) (map f xs)
  map-Mem a [] m = elim m [ ]
  map-Mem a (x ∷ xs) (Memᴰ.head e) = Memᴰ.head (ap f e)
  map-Mem a (x ∷ xs) (Memᴰ.tail m) = Memᴰ.tail (map-Mem a xs m)

module _ (collate : String → String → Bool) where
  insert_by_name-All :
      (P : Bucket → Type 0) (b : Bucket) (xs : List Bucket)
      → P b
      → All P xs
      → All P (insert_by_name collate b xs)
  unfolding insert_by_name
  insert_by_name-All P b [] p h = (p, tt)
  insert_by_name-All P b (x ∷ xs) p h =
      if-All P (collate b.row.bucket_name x.row.bucket_name) (b ∷ x ∷ xs)
        (x ∷ insert_by_name collate b xs) (p, h) (h.0, insert_by_name-All P b xs p h.1)

  pub order_by_name-All :
      (P : Bucket → Type 0) (xs : List Bucket) → All P xs → All P (order_by_name collate xs)
  unfolding order_by_name
  order_by_name-All P [] h = tt
  order_by_name-All P (x ∷ xs) h =
      insert_by_name-All P x (order_by_name collate xs) h.0 (order_by_name-All P xs h.1)

  insert_by_name-own :
      (b x : Bucket) (xs : List Bucket) → b ≡ x → Memᴰ b (insert_by_name collate x xs)
  unfolding insert_by_name
  insert_by_name-own b x [] e = Memᴰ.head e
  insert_by_name-own b x (y ∷ ys) e =
      if-Mem b _ _ _ (Memᴰ.head e) (Memᴰ.tail (insert_by_name-own b x ys e))

  insert_by_name-Mem :
      (b x : Bucket) (xs : List Bucket) → Memᴰ b xs → Memᴰ b (insert_by_name collate x xs)
  unfolding insert_by_name
  insert_by_name-Mem b x [] m = elim m [ ]
  insert_by_name-Mem b x (y ∷ ys) (Memᴰ.head e) =
      if-Mem b _ _ _ (Memᴰ.tail (Memᴰ.head e)) (Memᴰ.head e)
  insert_by_name-Mem b x (y ∷ ys) (Memᴰ.tail m) =
      if-Mem b _ _ _ (Memᴰ.tail (Memᴰ.tail m)) (Memᴰ.tail (insert_by_name-Mem b x ys m))

  pub order_by_name-Mem :
      (b : Bucket) (xs : List Bucket) → Memᴰ b xs → Memᴰ b (order_by_name collate xs)
  unfolding order_by_name
  order_by_name-Mem b [] m = elim m [ ]
  order_by_name-Mem b (x ∷ xs) (Memᴰ.head e) = insert_by_name-own b x (order_by_name collate xs) e
  order_by_name-Mem b (x ∷ xs) (Memᴰ.tail m) =
      insert_by_name-Mem b x (order_by_name collate xs) (order_by_name-Mem b xs m)
