-- ===== src/Schema/Tenants.antt =====
-- migrations/00004, 00005 and 00007: tenant accounts, platform buckets, the grants between them,
-- and the lifecycle rules of buckets. A nullable BIGINT column is an `Option ℤ`, ids apart.
use osspilot_ops_api.Common.{ℕ, String, Bool, Option, List}
use osspilot_ops_api.Common.Int.{ℤ}

pub record AccountRow : Type 0 where
  pub id : ℕ
  pub username : String
  pub password_hash : String
  pub display_name : Option String
  pub email : Option String
  pub phone : Option String
  pub status : String
  pub quota_bytes : Option ℤ
  pub object_limit : Option ℤ
  pub daily_upload_bytes : Option ℤ
  pub bucket_limit : Option ℤ
  pub storage_region_id : Option ℕ
  pub must_change_password : Bool
  pub last_login_at : Option ℕ
  pub created_at : ℕ
  pub updated_at : ℕ

pub record BucketRow : Type 0 where
  pub id : ℕ
  pub bucket_name : String
  pub display_name : Option String
  pub storage_region_id : Option ℕ
  pub quota_bytes : Option ℤ
  pub object_limit : Option ℤ
  pub status : String
  pub created_at : ℕ
  pub updated_at : ℕ

pub record GrantRow : Type 0 where
  pub account_id : ℕ
  pub bucket_id : ℕ
  pub granted_at : ℕ

-- A row of `lifecycle_rules`
pub record LifecycleRow : Type 0 where
  pub id : ℕ
  pub bucket_id : ℕ
  pub prefix : String
  pub enabled : Bool
  pub delete_after_days : Option ℤ
  pub cleanup_trash_after_days : Option ℤ
  pub cleanup_versions_after_days : Option ℤ
  pub cleanup_multipart_after_days : Option ℤ
  pub created_at : ℕ
  pub updated_at : ℕ

pub record TenantTables : Type 0 where
  pub accounts : List AccountRow
  pub next_account_id : ℕ
  pub buckets : List BucketRow
  pub next_bucket_id : ℕ
  pub grants : List GrantRow
  pub lifecycle_rules : List LifecycleRow
  pub next_rule_id : ℕ
