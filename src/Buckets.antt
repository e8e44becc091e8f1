-- ===== src/Buckets.antt =====
-- internal/buckets/handler.go: the registered buckets.
pub mod Rows
pub mod Names
pub mod Live
pub mod Register
pub mod Policies
pub mod Valid
mod Tests
use osspilot_ops_api.Common.{
  ℕ, eqb, ltb, String, not, ◌||◌, Option, none, some, List, [], ◌∷◌, map, length, ◌⊎◌, inl, inr,
  ◌==◌, if◌then◌else◌,
}
use osspilot_ops_api.Common.Int.{ℤ, pos}
use osspilot_ops_api.Common.Text.{trim_space}
use osspilot_ops_api.Action.{Result, ok, err, attempt, ◌>>=◌, ◌>>◌, pure, guard, require, stop}
use osspilot_ops_api.Http.{Response, json, error, reply, panic, Handler, refuse, database}
use osspilot_ops_api.Auth.{Request}
use osspilot_ops_api.Auth.Accounts.{User}
use osspilot_ops_api.Project.{CallError}
use osspilot_ops_api.Project.Usage.{UsageBucket, get_usage}
use osspilot_ops_api.Project.World.{World, on_db, on_remote}
use Rows.{Bucket, list_buckets}
use Register.{register}
use Live.{
  BucketsHandler, RegError, conflict, database_error, unconfigured, storage_error, missing,
  no_region, inactive, bad_name, reg_text,
}

-- `createRequest`, whose `sync_versioning` the code never reads
pub record CreateBucket : Type 0 where
  pub bucket_name : String
  pub display_name : Option String
  pub storage_region_id : Option ℤ
  pub quota_bytes : Option ℤ
  pub object_limit : Option ℤ

-- `batchRequest`
pub record ImportBuckets : Type 0 where
  pub bucket_names : List String
  pub storage_region_id : Option ℤ

-- `item`: a bucket with the usage that the tenant API has of it
pub record BucketItem : Type 0 where
  pub bucket : Bucket
  pub used_bytes : ℤ
  pub object_count : ℤ
  pub collected_at : Option String

-- A failed name of `importBatch` comes with the text of its error.
pub data BucketBody : Type 0 where
  bucket_items : List BucketItem → ℕ → BucketBody
  bucket_detail : Bucket → BucketBody
  outcomes : List Bucket → List (String × String) → BucketBody

-- `toItem`
abbrev pub to_item : Bucket → BucketItem
to_item b = record { bucket = b; used_bytes = pos 0; object_count = pos 0; collected_at = none }

abbrev non_blank : Option String → Option String
non_blank none = none
non_blank (some s) = if s == "" then none else some s

-- `attachUsage`
unfoldable pub attach_usage : BucketItem → UsageBucket → BucketItem
attach_usage it u = record it {
  used_bytes = u.used_bytes;
  object_count = u.object_count;
  collected_at = non_blank u.collected_at;
}

-- The map `usage`, in which the last bucket of a name stays
unfoldable pub usage_of : List UsageBucket → String → Option UsageBucket
usage_of [] name = none
usage_of (u ∷ us) name = elim (usage_of us name) [
  | some later ↦ some later
  | none ↦ if u.bucket_name == name then some u else none
]

abbrev pub with_usage : List UsageBucket → Bucket → BucketItem
with_usage usage b = elim (usage_of usage b.row.bucket_name) [
  | none ↦ to_item b
  | some u ↦ attach_usage (to_item b) u
]

-- `emptyToNil`
unfoldable pub empty_to_nil : Option String → Option String
unfolding trim_space
empty_to_nil none = none
empty_to_nil (some s) = let t = trim_space s in if t == "" then none else some t

-- `writeRegErr`
abbrev pub write_reg_err : {S A : Type 0} → RegError → Handler S BucketBody A
write_reg_err conflict = refuse 409 "Bucket already registered"
write_reg_err database_error = refuse 500 "database error"
write_reg_err unconfigured = refuse 503 (reg_text unconfigured)
write_reg_err storage_error = refuse 502 (reg_text storage_error)
write_reg_err (missing name) = refuse 404 (reg_text (missing name))
write_reg_err no_region = refuse 422 (reg_text no_region)
write_reg_err inactive = refuse 422 (reg_text inactive)
write_reg_err (bad_name text) = refuse 400 text

abbrev pub place :
    Bucket ⊎ (String × String)
    → List Bucket × List (String × String)
    → List Bucket × List (String × String)
place (inl b) (imported, refused) = (b ∷ imported, refused)
place (inr e) (imported, refused) = (imported, e ∷ refused)

module _ {R P : Type 0} (h : BucketsHandler R P) where
  abbrev with_store : {S : Type 0} → Handler S BucketBody Unit
  with_store = guard h.store (reply (error 503 "database is not configured"))

  abbrev usage_or_none : Result CallError (List UsageBucket) → List UsageBucket
  usage_or_none (ok us) = us
  usage_or_none (err e) = []

  -- `list`
  unfoldable pub list : Handler (World R) BucketBody (Response BucketBody)
  list = do
    with_store
    found ← on_db (database (list_buckets h.collate))
    outcome ← attempt (on_remote (get_usage h.net h.decode_usage h.project))
    pure (json 200 (bucket_items (map (with_usage (usage_or_none outcome)) found) (length found)))

  -- A nil bucket is dereferenced.
  abbrev pub registered :
      Result RegError (Option Bucket) → Handler (World R) BucketBody (Response BucketBody)
  registered (ok none) = stop panic
  registered (ok (some b)) = pure (json 201 (bucket_detail b))
  registered (err e) = write_reg_err e

  -- `create`
  unfoldable pub create :
      Request CreateBucket → Option User → Handler (World R) BucketBody (Response BucketBody)
  unfolding empty_to_nil
  create r user = do
    with_store
    req ← require (reply (error 400 "invalid json")) r.body
    outcome ← attempt (
        register h r.origin r.now user (trim_space req.bucket_name) (empty_to_nil req.display_name)
          req.storage_region_id req.quota_bytes req.object_limit)
    registered outcome

  abbrev pub sorted_out :
      String
      → Result RegError (Option Bucket)
      → Handler (World R) BucketBody (Bucket ⊎ (String × String))
  sorted_out name (ok none) = stop panic
  sorted_out name (ok (some b)) = pure (inl b)
  sorted_out name (err e) = pure (inr (name, reg_text e))

  -- The loop of `importBatch`; a nil bucket is dereferenced before the names after it are tried.
  unfoldable pub import_each :
      Request ImportBuckets
      → Option User
      → Option ℤ
      → List String
      → Handler (World R) BucketBody (List Bucket × List (String × String))
  import_each r user region [] = pure ([], [])
  import_each r user region (raw ∷ names) =
      let rest = import_each r user region names in
      (do
        let name = trim_space raw
        outcome ← attempt (register h r.origin r.now user name none region none none)
        here ← sorted_out name outcome
        others ← rest
        pure (place here others))

  -- `importBatch`
  unfoldable pub import_batch :
      Request ImportBuckets → Option User → Handler (World R) BucketBody (Response BucketBody)
  import_batch r user = do
    with_store
    req ← require (reply (error 400 "invalid json")) r.body
    guard (not (eqb (length req.bucket_names) 0 || ltb 50 (length req.bucket_names)))
        (reply (error 400 "bucket_names must contain 1-50 items"))
    (imported, refused) ← import_each r user req.storage_region_id req.bucket_names
    pure (json 200 (outcomes imported refused))
