-- ===== src/Audit/Actor.antt =====
-- `if user != nil { audit.Write(h.audit, r, user.ID, user.Username, …) }` of the handlers.
use osspilot_ops_api.Common.{String, ◌≡◌, refl, Bool, Option, none, some}
use osspilot_ops_api.Action.{ok, pure}
use osspilot_ops_api.Http.{Exit, Handler}
use osspilot_ops_api.Schema.{Store}
use osspilot_ops_api.Audit.{Origin, write_entry}
use osspilot_ops_api.Audit.Laws.{write_entry_lem}
use osspilot_ops_api.Auth.Accounts.{User}

module _ {B : Type 0} (log : Bool) (origin : Origin) where
  unfoldable pub write_for : Option User → String → String → String → String → Handler Store B Unit
  write_for none action bucket status message = pure tt
  write_for (some u) action bucket status message =
      write_entry log origin u.id u.username action bucket status message

-- It always goes on, and changes the audit log only.
module _ (B : Type 0) (log : Bool) (origin : Origin) (action bucket status message : String)
    (s : Store) where
  pub write_for_lem :
      (user : Option User)
      → ((write_for {B = B} log origin user action bucket status message s).0 ≡ ok tt)
        × ((write_for {B = B} log origin user action bucket status message s).1.tables.ops
            ≡ s.tables.ops)
        × ((write_for {B = B} log origin user action bucket status message s).1.tables.regions
            ≡ s.tables.regions)
        × ((write_for {B = B} log origin user action bucket status message s).1.tables.tenants
            ≡ s.tables.tenants)
        × ((write_for {B = B} log origin user action bucket status message s).1.tables.alerts
            ≡ s.tables.alerts)
  unfolding write_for
  write_for_lem none = (refl, refl, refl, refl, refl)
  write_for_lem (some u) =
      write_entry_lem (Exit B) log origin u.id u.username action bucket status message s
