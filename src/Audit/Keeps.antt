-- ===== src/Audit/Keeps.antt =====
-- Writing to the audit log keeps what does not depend on it.
use osspilot_ops_api.Common.{ℕ, String, Bool, Option, none, some, List, not, ◌||◌, ◌==◌}
use osspilot_ops_api.Action.Keeps.{Keeps, Keeps-pure, Keeps-if, keeps_rules}
use osspilot_ops_api.Database.Keeps.{OnTables, Keeps-exec}
use osspilot_ops_api.Schema.{Tables}
use osspilot_ops_api.Schema.Audit.{AuditRow}
use osspilot_ops_api.Audit.{Origin, insert_entry, write_entry}
use osspilot_ops_api.Audit.Actor.{write_for}
use osspilot_ops_api.Auth.Accounts.{User}

module _ (P : Tables → Type 0)
    (free : (t : Tables) (logs : List AuditRow) → P t → P (record t { audit_logs = logs })) where
  pub insert_entry-Keeps : (e : AuditRow) → Keeps (OnTables P) (insert_entry e)
  unfolding insert_entry
  insert_entry-Keeps e = Keeps-exec _ (λ t h. free t _ h)

  pub write_entry-Keeps :
      {F : Type 0} (log : Bool) (origin : Origin) (id : ℕ)
      (name action bucket status message : String)
      → Keeps (OnTables P) (write_entry {F = F} log origin id name action bucket status message)
  unfolding write_entry
  write_entry-Keeps log origin id name action bucket status message =
      Keeps-if (not log || action == "") _ _ (Keeps-pure tt)
        (search (keeps_rules, insert_entry-Keeps) depth 20)

  pub write_for-Keeps :
      {B : Type 0} (log : Bool) (origin : Origin) (user : Option User)
      (action bucket status message : String)
      → Keeps (OnTables P) (write_for {B = B} log origin user action bucket status message)
  unfolding write_for
  write_for-Keeps log origin none action bucket status message = Keeps-pure tt
  write_for-Keeps log origin (some u) action bucket status message =
      write_entry-Keeps log origin u.id u.username action bucket status message
