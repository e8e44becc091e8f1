-- ===== src/Audit.antt =====
-- internal/audit/store.go: what the handlers write to the audit log. Its errors are ignored.
pub mod Laws
pub mod Merge
pub mod Actor
pub mod Keeps
use osspilot_ops_api.Common.{
  ℕ, ltb, String, Bool, not, ◌||◌, Option, none, some, [], ◌∷◌, ◌++◌, ◌==◌, if◌then◌else◌,
}
use osspilot_ops_api.Action.{Result, ok, Action, attempt, ◌>>=◌, ◌>>◌, pure}
use osspilot_ops_api.Database.{DbError, Db, exec}
use osspilot_ops_api.Schema.{Tables, Store}
use osspilot_ops_api.Schema.Audit.{AuditRow}

-- What `ClientIP` and `UserAgent` read from a request.
pub record Origin : Type 0 where
  pub source_ip : Option String
  pub user_agent : Option String

-- `(*Store).Insert`
unfoldable pub insert_entry : AuditRow → Action Store DbError Unit
unfolding exec
insert_entry e =
    let status = if e.status == "" then "success" else e.status in
    exec (λ t. (ok tt, record t { audit_logs = t.audit_logs ++ record e { status = status } ∷ [] }))

abbrev pub non_empty : String → Option String
non_empty s = if s == "" then none else some s

-- `_ = s.Insert(…)`: a failure is dropped.
abbrev pub ignore : {E F : Type 0} → Action Store E Unit → Action Store F Unit
ignore m = do _ ← attempt m; pure tt

module _ (origin : Origin) where
  -- The literals `Entry{…}` of `Record` and of `Write`.
  abbrev entry : Option ℕ → Option String → String → String → String → String → AuditRow
  entry user_id username action bucket status message = record {
    user_id = user_id;
    username = username;
    tenant_id = none;
    tenant_name = none;
    bucket_name = non_empty bucket;
    object_key = none;
    action = action;
    source_ip = origin.source_ip;
    user_agent = origin.user_agent;
    status = status;
    error_message = non_empty message;
  }

module _ {F : Type 0} (log : Bool) (origin : Origin) where
  -- `(*Store).Record`; `log` says whether there is an audit store.
  unfoldable pub record_entry : ℕ → String → String → String → String → Action Store F Unit
  unfolding insert_entry
  record_entry user_id username action status message =
      if not log || action == ""
      then pure tt
      else ignore (
          insert_entry (
            entry origin (if ltb 0 user_id then some user_id else none) (non_empty username) action
              "" status message))

  -- `audit.Write`
  unfoldable pub write_entry : ℕ → String → String → String → String → String → Action Store F Unit
  unfolding insert_entry
  write_entry user_id username action bucket status message =
      if not log || action == ""
      then pure tt
      else ignore
          (insert_entry (entry origin (some user_id) (some username) action bucket status message))
