-- ===== src/Schema/Regions.antt =====
-- migrations/00002_storage_regions.sql
use osspilot_ops_api.Common.{ℕ, String, Bool, List}

pub record RegionRow : Type 0 where
  pub id : ℕ
  pub code : String
  pub name : String
  pub s3_endpoint : String
  pub s3_region_name : String
  pub is_default : Bool
  pub status : String
  pub created_at : ℕ
  pub updated_at : ℕ

pub record RegionTables : Type 0 where
  pub rows : List RegionRow
  pub next_region_id : ℕ
