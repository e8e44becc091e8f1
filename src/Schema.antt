-- ===== src/Schema.antt =====
-- migrations/*.sql: the tables, as rows in insertion order. Serial ids are natural numbers from 1,
-- time stamps are seconds since an epoch, and a nullable column is an `Option`.
pub mod Ops
pub mod Audit
pub mod Regions
pub mod Tenants
pub mod Alerts
pub mod Settings
use osspilot_ops_api.Common.{List, []}
use osspilot_ops_api.Database.{Db}
use Ops.{OpsTables}
use Audit.{AuditRow}
use Regions.{RegionTables}
use Tenants.{TenantTables}
use Alerts.{AlertTables}
use Settings.{SettingRow}

pub record Tables : Type 0 where
  pub ops : OpsTables
  pub open ops use *
  pub regions : RegionTables
  pub tenants : TenantTables
  pub alerts : AlertTables
  -- In the order of the first writes; `key` is the primary key.
  pub settings : List SettingRow
  pub audit_logs : List AuditRow

abbrev pub Store : Type 0
Store = Db Tables

-- The tables after the migrations, before the first rows.
abbrev pub empty_tables : Tables
empty_tables = record {
  ops = record { users = []; bindings = []; next_user_id = 1 };
  regions = record { rows = []; next_region_id = 1 };
  tenants = record {
    accounts = [];
    next_account_id = 1;
    buckets = [];
    next_bucket_id = 1;
    grants = [];
    lifecycle_rules = [];
    next_rule_id = 1;
  };
  alerts = record {
    alert_rules = [];
    next_alert_rule_id = 1;
    channels = [];
    next_channel_id = 1;
    events = [];
    next_event_id = 1;
  };
  settings = [];
  audit_logs = [];
}
