-- ===== src/Audit/Laws.antt =====
-- Writing to the audit log changes no other table, and always goes on.
use osspilot_ops_api.Common.{ℕ, String, ◌≡◌, Bool, arith}
use osspilot_ops_api.Action.{ok}
use osspilot_ops_api.Schema.{Store}
use osspilot_ops_api.Audit.{Origin, write_entry}

module _ (F : Type 0) (log : Bool) (origin : Origin) (user_id : ℕ) (username : String)
    (action bucket status message : String) (s : Store) where
  pub write_entry_lem :
      ((write_entry {F = F} log origin user_id username action bucket status message s).0 ≡ ok tt)
      × ((write_entry {F = F} log origin user_id username action bucket status message
            s).1.tables.ops
          ≡ s.tables.ops)
      × ((write_entry {F = F} log origin user_id username action bucket status message
            s).1.tables.regions
          ≡ s.tables.regions)
      × ((write_entry {F = F} log origin user_id username action bucket status message
            s).1.tables.tenants
          ≡ s.tables.tenants)
      × ((write_entry {F = F} log origin user_id username action bucket status message
            s).1.tables.alerts
          ≡ s.tables.alerts)
  unfolding write_entry
  write_entry_lem = (ground arith, ground arith, ground arith, ground arith, ground arith)
