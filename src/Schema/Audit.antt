-- ===== src/Schema/Audit.antt =====
-- migrations/00008_audit_alerts.sql: the audit log, without the columns that its default fills.
use osspilot_ops_api.Common.{ℕ, String, Option}

pub record AuditRow : Type 0 where
  pub user_id : Option ℕ
  pub username : Option String
  pub tenant_id : Option ℕ
  pub tenant_name : Option String
  pub bucket_name : Option String
  pub object_key : Option String
  pub action : String
  pub source_ip : Option String
  pub user_agent : Option String
  pub status : String
  pub error_message : Option String
