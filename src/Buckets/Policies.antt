-- ===== src/Buckets/Policies.antt =====
-- internal/buckets/s3.go: discovery of buckets, their policies, and their inventory. A handler of the
-- parent is the receiver; `P` is what a policy is to `encoding/json`.
use osspilot_ops_api.Common.{
  ℕ, String, Bool, not, ◌&&◌, Option, some, List, [], ◌∷◌, any, length, ◌==◌, if◌then◌else◌,
}
use osspilot_ops_api.Common.Decimal.{parse_id}
use osspilot_ops_api.Action.{Result, ok, err, attempt, ◌>>=◌, ◌>>◌, pure, guard, require}
use osspilot_ops_api.Database.{DbError}
use osspilot_ops_api.Http.{Response, json, no_content, error, reply, Handler, refuse, database}
use osspilot_ops_api.Schema.{Store}
use osspilot_ops_api.Auth.{Request}
use osspilot_ops_api.Auth.Accounts.{User}
use osspilot_ops_api.Audit.Actor.{write_for}
use osspilot_ops_api.Project.{CallError, http_error, enqueue_inventory}
use osspilot_ops_api.Project as Project
use osspilot_ops_api.Project.World.{World, on_db, on_remote}
use osspilot_ops_api.Rgw as Rgw
use osspilot_ops_api.Rgw.{BucketInfo, S3Error}
use osspilot_ops_api.Settings.{runtime}
use osspilot_ops_api.Buckets.Rows.{Bucket, get_bucket, name_set, first_account_id}
use osspilot_ops_api.Buckets.Live.{BucketsHandler}

pub data S3Body (P : Type 0) : Type 0 where
  discovered : List (BucketInfo × Bool) → ℕ → S3Body P
  job : Bucket → String → S3Body P
  -- The bucket, the first account that it is granted to, and its policy
  policy_of : Bucket → ℕ → Option P → S3Body P

-- The text of an error of S3
abbrev pub s3_text : S3Error → String
s3_text Rgw.no_bucket = "bucket not found"
s3_text (Rgw.failed text) = text

-- The loop of `discover`, with the names that are registered
unfoldable pub discover_each : Bool → List String → List BucketInfo → List (BucketInfo × Bool)
discover_each only_new names [] = []
discover_each only_new names (b ∷ bs) =
    let rest = discover_each only_new names bs in
    let is_known = any (λ n. n == b.name) names in
    if only_new && is_known then rest else (b, is_known) ∷ rest

-- `tenantID, _ := h.store.FirstAccountID(…)`
abbrev pub or_zero_id : Result DbError ℕ → ℕ
or_zero_id (ok n) = n
or_zero_id (err e) = 0

module _ {R P : Type 0} (h : BucketsHandler R P) where
  module _ {S A : Type 0} where
    abbrev pub or_storage : Result S3Error A → Handler S (S3Body P) A
    or_storage (ok a) = pure a
    or_storage (err e) = refuse 502 "storage error"

    -- The errors of `EnqueueInventory` in `inventory`
    abbrev pub or_job : Result CallError A → Handler S (S3Body P) A
    or_job (ok a) = pure a
    or_job (err (http_error status detail)) = refuse status detail
    or_job (err Project.failed) = refuse 502 "tenant api error"

  -- `s3Client`
  unfoldable pub s3_client : Handler Store (S3Body P) Rgw.Client
  s3_client = do
    s ← require (reply (error 503 "settings are not configured")) h.settings
    rt ← database (runtime s)
    require (reply (error 503 "S3/RGW is not configured"))
        (Rgw.new_client rt.s3_endpoint rt.rgw_access_key rt.rgw_secret_key)

  abbrev pub with_store : Handler Store (S3Body P) Unit
  with_store = guard h.store (reply (error 503 "database is not configured"))

  -- `discover`, where `only` is the query `unregistered_only`
  unfoldable pub discover : String → Handler (World R) (S3Body P) (Response (S3Body P))
  discover only = do
    client ← on_db s3_client
    on_db with_store
    outcome ← attempt (on_remote (Rgw.list_buckets h.sdk client))
    listed ← or_storage outcome
    names ← on_db (database name_set)
    let found = discover_each (not (h.equal_fold only "false")) names listed
    pure (json 200 (discovered found (length found)))

  module _ {Q : Type 0} (r : Request Q) where
    -- `loadBucket…` and `inventory`, from the id of the path to its bucket
    unfoldable pub path_bucket : Handler Store (S3Body P) Bucket
    path_bucket = do
      id ← require (reply (error 400 "invalid bucket_id")) (parse_id (r.path_value "bucket_id"))
      found ← database (get_bucket id)
      require (reply (error 404 "Bucket not found")) found

    -- `inventory`
    unfoldable pub inventory : Handler (World R) (S3Body P) (Response (S3Body P))
    inventory = do
      on_db with_store
      client ← require (reply (error 503 "tenant projection is not configured")) h.project
      b ← on_db path_bucket
      guard (b.row.status == "active") (reply (error 409 "Bucket is not active"))
      outcome ← attempt (on_remote (enqueue_inventory h.net h.decode_job client b.row.bucket_name))
      id ← or_job outcome
      pure (json 200 (job b id))

    -- `loadBucketS3`
    unfoldable pub load_bucket_s3 : Handler Store (S3Body P) (Bucket × Rgw.Client)
    load_bucket_s3 = do with_store; client ← s3_client; b ← path_bucket; pure (b, client)

    -- `getPolicy`
    unfoldable pub get_policy : Handler (World R) (S3Body P) (Response (S3Body P))
    get_policy = do
      (b, client) ← on_db load_bucket_s3
      outcome ← attempt (on_remote (Rgw.get_policy h.sdk client b.row.bucket_name))
      policy ← or_storage outcome
      tenant ← attempt (on_db (first_account_id b.row.id))
      pure (json 200 (policy_of b (or_zero_id tenant) policy))

    module _ (user : Option User) where
      -- A change of a policy is written to the audit log, whatever comes of it.
      abbrev pub audited : Bucket → Result S3Error Unit → Handler Store (S3Body P) Unit
      audited b (ok a) =
          write_for h.log r.origin user "modify_bucket_policy" b.row.bucket_name "success" ""
      audited b (err e) =
          write_for h.log r.origin user "modify_bucket_policy" b.row.bucket_name "failure"
            (s3_text e)

      -- `deletePolicy`
      unfoldable pub delete_policy : Handler (World R) (S3Body P) (Response (S3Body P))
      delete_policy = do
        (b, client) ← on_db load_bucket_s3
        outcome ← attempt (on_remote (Rgw.delete_policy h.sdk client b.row.bucket_name))
        on_db (audited b outcome)
        or_storage outcome
        pure no_content

  module _ (r : Request (Option P)) (user : Option User) where
    -- `putPolicy`, whose request has the policy or nothing
    unfoldable pub put_policy : Handler (World R) (S3Body P) (Response (S3Body P))
    put_policy = do
      (b, client) ← on_db (load_bucket_s3 r)
      req ← require (reply (error 400 "invalid json")) r.body
      policy ← require (reply (error 400 "policy is required")) req
      outcome ← attempt (on_remote (Rgw.put_policy h.sdk client b.row.bucket_name policy))
      on_db (audited r user b outcome)
      or_storage outcome
      tenant ← attempt (on_db (first_account_id b.row.id))
      pure (json 200 (policy_of b (or_zero_id tenant) (some policy)))
