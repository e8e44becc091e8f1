-- ===== src/Schema/Alerts.antt =====
-- migrations/00008_audit_alerts.sql: alert rules and events. JSON columns are their texts.
use osspilot_ops_api.Common.{ℕ, String, Bool, Option, List}

pub record AlertRow : Type 0 where
  pub id : ℕ
  pub name : String
  pub rule_type : String
  pub enabled : Bool
  pub severity : String
  pub config : String
  pub channel_ids : String
  pub notify_tenant : Bool
  pub description : Option String
  pub created_at : ℕ
  pub updated_at : ℕ

pub record ChannelRow : Type 0 where
  pub id : ℕ
  pub name : String
  pub channel_type : String
  pub enabled : Bool
  pub config : String
  pub created_at : ℕ
  pub updated_at : ℕ

pub record EventRow : Type 0 where
  pub id : ℕ
  pub rule_id : Option ℕ
  pub rule_type : String
  pub severity : String
  pub status : String
  pub title : String
  pub message : String
  pub tenant_id : Option ℕ
  pub bucket_id : Option ℕ
  pub bucket_name : Option String
  pub details : String
  pub notify_tenant : Bool
  pub fired_at : ℕ
  pub acknowledged_at : Option ℕ
  pub acknowledged_by : Option ℕ
  pub resolved_at : Option ℕ
  pub created_at : ℕ

pub record AlertTables : Type 0 where
  pub alert_rules : List AlertRow
  pub next_alert_rule_id : ℕ
  pub channels : List ChannelRow
  pub next_channel_id : ℕ
  pub events : List EventRow
  pub next_event_id : ℕ
