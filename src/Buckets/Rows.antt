-- ===== src/Buckets/Rows.antt =====
-- internal/buckets/store.go
pub mod Order
use Prim.Native.String.{count}
use osspilot_ops_api.Common.{
  ℕ, eqb, leb, ◌+◌, String, Bool, true, not, ◌&&◌, Option, none, some, List, [], ◌∷◌, ◌++◌, map,
  any, keep, first, ◌==◌, if◌then◌else◌,
}
use osspilot_ops_api.Action.{Result, ok, err, Action, ◌>>=◌, pure}
use osspilot_ops_api.Database.{DbError, unique_violation, broken, exec, query}
use osspilot_ops_api.Schema.{Tables, Store}
use osspilot_ops_api.Schema.Regions.{RegionRow}
use osspilot_ops_api.Schema.Tenants.{BucketRow, GrantRow}
use osspilot_ops_api.Regions.Rows.{by_region}

pub record RegionBrief : Type 0 where
  pub id : ℕ
  pub code : String
  pub name : String

-- `Bucket`, whose row is the other fields
pub record Bucket : Type 0 where
  pub row : BucketRow
  pub open row use *
  pub storage_region : Option RegionBrief

abbrev pub by_bucket : ℕ → BucketRow → Bool
by_bucket id b = eqb b.id id

abbrev pub brief_of : Option RegionRow → Option RegionBrief
brief_of none = none
brief_of (some r) = some (record { id = r.id; code = r.code; name = r.name })

-- LEFT JOIN storage_regions r ON r.id = storage_region_id
unfoldable pub region_of : Tables → Option ℕ → Option RegionRow
region_of t none = none
region_of t (some id) = first (by_region id) t.regions.rows

-- `scan`
unfoldable pub scan_bucket : Tables → BucketRow → Bucket
unfolding region_of
scan_bucket t b = record { row = b; storage_region = brief_of (region_of t b.storage_region_id) }

abbrev pub found_bucket : Tables → Option BucketRow → Option Bucket
found_bucket t none = none
found_bucket t (some b) = some (scan_bucket t b)

-- `GetByID`
unfoldable pub get_bucket : ℕ → Action Store DbError (Option Bucket)
unfolding query
get_bucket id = query (λ t. ok (found_bucket t (first (by_bucket id) t.tenants.buckets)))

-- `collate` is the order of texts in the database.
module _ (collate : String → String → Bool) where
  unfoldable pub insert_by_name : Bucket → List Bucket → List Bucket
  insert_by_name b [] = b ∷ []
  insert_by_name b (x ∷ xs) =
      let later = insert_by_name b xs in
      if collate b.row.bucket_name x.row.bucket_name then b ∷ x ∷ xs else x ∷ later

  -- ORDER BY b.bucket_name
  unfoldable pub order_by_name : List Bucket → List Bucket
  unfolding insert_by_name
  order_by_name [] = []
  order_by_name (b ∷ bs) = insert_by_name b (order_by_name bs)

  -- `List`
  unfoldable pub list_buckets : Action Store DbError (List Bucket)
  unfolding query order_by_name
  list_buckets = query (λ t. ok (order_by_name (map (scan_bucket t) t.tenants.buckets)))

-- `GetByIDs`, whose rows may come in any order
unfoldable pub get_buckets : List ℕ → Action Store DbError (List Bucket)
unfolding query
get_buckets [] = pure []
get_buckets (id ∷ ids) = query (λ t.
    ok
      (map (scan_bucket t) (keep (λ (b : BucketRow). any (eqb b.id) (id ∷ ids)) t.tenants.buckets)))

-- `NameSet`
unfoldable pub name_set : Action Store DbError (List String)
unfolding query
name_set = query (λ t. ok (map (λ (b : BucketRow). b.bucket_name) t.tenants.buckets))

-- SELECT account_id FROM account_bucket_grants WHERE bucket_id = $1 ORDER BY account_id LIMIT 1
unfoldable pub least_account : ℕ → List GrantRow → Option ℕ
least_account bucket_id [] = none
least_account bucket_id (g ∷ gs) =
    let rest = least_account bucket_id gs in
    if not (eqb g.bucket_id bucket_id) then rest else elim rest [
      | none ↦ some g.account_id
      | some n ↦ some (if leb g.account_id n then g.account_id else n)
    ]

-- COALESCE(…, 0)
abbrev pub or_zero : Option ℕ → ℕ
or_zero none = 0
or_zero (some n) = n

-- `FirstAccountID`
unfoldable pub first_account_id : ℕ → Action Store DbError ℕ
unfolding query least_account
first_account_id bucket_id = query (λ t. ok (or_zero (least_account bucket_id t.tenants.grants)))

abbrev pub short_enough : ℕ → Option String → Bool
short_enough limit none = true
short_enough limit (some s) = leb (count s) limit

unfoldable pub bucket_fits : BucketRow → Bool
bucket_fits b = leb (count b.bucket_name) 63 && short_enough 128 b.display_name

-- REFERENCES storage_regions (id)
abbrev pub region_exists : Tables → Option ℕ → Bool
region_exists t none = true
region_exists t (some id) = any (by_region id) t.regions.rows

abbrev pub add_bucket : BucketRow → Tables → Tables
add_bucket b t = record t {
  tenants = record t.tenants {
    buckets = t.tenants.buckets ++ b ∷ [];
    next_bucket_id = t.tenants.next_bucket_id + 1;
  };
}

-- INSERT INTO platform_buckets: the lengths, the unique index on `bucket_name`, the reference
unfoldable pub insert_bucket_row : (ℕ → BucketRow) → Tables → Result DbError ℕ × Tables
unfolding bucket_fits
insert_bucket_row row t =
    let b = row t.tenants.next_bucket_id in
    if not (bucket_fits b)
    then (err broken, t)
    else if any (λ x. x.bucket_name == b.bucket_name) t.tenants.buckets
    then (err unique_violation, t)
    else if region_exists t b.storage_region_id
    then (ok b.id, add_bucket b t)
    else (err broken, t)

-- `Insert`. The row that it reads back is `none` where it is gone.
unfoldable pub insert_bucket : (ℕ → BucketRow) → Action Store DbError (Option Bucket)
unfolding exec insert_bucket_row get_bucket
insert_bucket row = do id ← exec (insert_bucket_row row); get_bucket id
