-- ===== src/Schema/Settings.antt =====
-- migrations/00003_system_settings.sql
use osspilot_ops_api.Common.{ℕ, String, Bool}

pub record SettingRow : Type 0 where
  pub key : String
  pub value : String
  pub is_secret : Bool
  pub updated_at : ℕ
