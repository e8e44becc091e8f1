-- ===== src/Buckets/Register.antt =====
-- `register` of internal/buckets/handler.go: a name, its region and its bucket in S3 are checked, and
-- then the row is written.
pub mod Valid
use osspilot_ops_api.Common.{ℕ, String, Option, none, some, ◌==◌, if◌then◌else◌}
use osspilot_ops_api.Common.Int.{ℤ, pos, negsuc}
use osspilot_ops_api.Action.{Result, ok, err, Action, attempt, ◌>>=◌, ◌>>◌, pure, stop}
use osspilot_ops_api.Database.{DbError, unique_violation, query}
use osspilot_ops_api.Schema.{Store}
use osspilot_ops_api.Schema.Audit.{AuditRow}
use osspilot_ops_api.Schema.Tenants.{BucketRow}
use osspilot_ops_api.Auth.Accounts.{User}
use osspilot_ops_api.Audit.{Origin, ignore, insert_entry}
use osspilot_ops_api.Regions.Rows.{Region, get_region}
use osspilot_ops_api.Project.{Client, enqueue_inventory}
use osspilot_ops_api.Project.World.{World, on_db, on_remote}
use osspilot_ops_api.Rgw as Rgw
use osspilot_ops_api.Buckets.Rows.{Bucket, insert_bucket}
use osspilot_ops_api.Buckets.Names.{validate_name}
use osspilot_ops_api.Buckets.Live.{
  BucketsHandler, RegError, conflict, database_error, storage_error, missing, no_region, inactive,
  bad_name, live_s3, reg_text,
}

abbrev nat_of : Option ℤ → Option ℕ
nat_of none = none
nat_of (some (pos n)) = some n
nat_of (some (negsuc n)) = none

-- `reg, err := h.regions.GetByID(…)` in `checkRegion`; no region has a negative id.
abbrev pub region_at : ℤ → Action Store DbError (Option Region)
region_at (pos n) = get_region n
region_at (negsuc n) = query (λ t. ok none)

abbrev pub check_found : Result DbError (Option Region) → Action Store RegError Unit
check_found (err e) = stop database_error
check_found (ok none) = stop no_region
check_found (ok (some reg)) = if reg.row.status == "active" then pure tt else stop inactive

-- The row that `Insert` writes
abbrev pub new_bucket : String → Option String → Option ℤ → Option ℤ → Option ℤ → ℕ → ℕ → BucketRow
new_bucket name display region quota objects now id = record {
  id = id;
  bucket_name = name;
  display_name = display;
  storage_region_id = nat_of region;
  quota_bytes = quota;
  object_limit = objects;
  status = "active";
  created_at = now;
  updated_at = now;
}

module _ {R P : Type 0} (h : BucketsHandler R P) (origin : Origin) (now : ℕ)
    (user : Option User) where
  abbrev register_entry : User → String → String → String → AuditRow
  register_entry u name status message = record {
    user_id = some u.id;
    username = some u.username;
    tenant_id = none;
    tenant_name = none;
    bucket_name = some name;
    object_key = none;
    action = "bucket_register";
    source_ip = origin.source_ip;
    user_agent = origin.user_agent;
    status = status;
    error_message = if message == "" then none else some message;
  }

  abbrev pub audit_by : Option User → String → String → String → Action Store RegError Unit
  audit_by none name status message = pure tt
  audit_by (some u) name status message =
      if h.log then ignore (insert_entry (register_entry u name status message)) else pure tt

  -- `auditRegister`
  unfoldable pub audit_register : String → String → String → Action Store RegError Unit
  audit_register name status message = audit_by user name status message

  -- `checkRegion`
  unfoldable pub check_region : Option ℤ → Action Store RegError Unit
  check_region none = pure tt
  check_region (some id) = do
    if h.regions then pure tt else stop no_region
    reg ← attempt (region_at id)
    check_found reg

  abbrev pub valid_or_stop : Option String → Action Store RegError Unit
  valid_or_stop none = pure tt
  valid_or_stop (some text) = stop (bad_name text)

  -- The errors of `HeadBucket` in `register`
  unfoldable pub after_head : String → Result Rgw.S3Error Unit → Action Store RegError Unit
  after_head name (ok a) = pure tt
  after_head name (err Rgw.no_bucket) = do
    audit_register name "failure" (reg_text (missing name))
    stop (missing name)
  after_head name (err (Rgw.failed text)) = do
    audit_register name "failure" text
    stop storage_error

  -- The errors of `Insert` in `register`
  unfoldable pub after_insert :
      String → Result DbError (Option Bucket) → Action Store RegError (Option Bucket)
  after_insert name (ok b) = do audit_register name "success" ""; pure b
  after_insert name (err unique_violation) = do
    audit_register name "failure" "database conflict"
    stop conflict
  after_insert name (err e) = stop database_error

  abbrev pub enqueue_for : Option Client → String → Action (World R) RegError Unit
  enqueue_for none name = pure tt
  enqueue_for (some c) name = do
    attempt (on_remote (enqueue_inventory h.net h.decode_job c name))
    pure tt

  -- `register` before the call of S3
  unfoldable pub open_register : String → Option ℤ → Action Store RegError Rgw.Client
  open_register name region = do valid_or_stop (validate_name name); check_region region; live_s3 h

  -- `register`; the bucket is nil where its row is gone before it is read back.
  unfoldable pub register :
      String
      → Option String
      → Option ℤ
      → Option ℤ
      → Option ℤ
      → Action (World R) RegError (Option Bucket)
  register name display region quota objects = do
    client ← on_db (open_register name region)
    found ← attempt (on_remote (Rgw.head_bucket h.sdk client name))
    on_db (after_head name found)
    stored ← attempt (on_db (insert_bucket (new_bucket name display region quota objects now)))
    b ← on_db (after_insert name stored)
    enqueue_for h.project name
    pure b
