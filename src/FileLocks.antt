-- ===== src/FileLocks.antt =====
-- internal/filelocks/handler.go: breaking the lock of a file at the tenant API.
mod Tests
use osspilot_ops_api.Common.{
  ℕ, eqb, String, Bool, true, false, not, ◌||◌, Option, none, some, List, [], ◌∷◌, ◌==◌,
  if◌then◌else◌,
}
use osspilot_ops_api.Common.Text.{trim_space, has_prefix}
use osspilot_ops_api.Action.{Result, ok, err, Action, attempt, ◌>>=◌, ◌>>◌, pure, guard, require}
use osspilot_ops_api.Http.{Response, json, Exit, reply, error, Handler, refuse}
use osspilot_ops_api.Schema.{Store}
use osspilot_ops_api.Schema.Audit.{AuditRow}
use osspilot_ops_api.Auth.{Request}
use osspilot_ops_api.Auth.Accounts.{User}
use osspilot_ops_api.Audit.{ignore, insert_entry}
use osspilot_ops_api.Project.{Network, Client, CallError, http_error, failed, force_unlock}
use osspilot_ops_api.Project.World.{World, on_db, on_remote}

-- `filelocks.Handler`: whether it has an audit log, its client of the tenant API, and what the JSON
-- decoder reads as the field `unlocked`
pub record LocksHandler (R : Type 0) : Type 0 where
  pub log : Bool
  pub project : Option Client
  pub net : Network R
  pub decode : String → Option Bool

-- The request of `forceUnlock`
pub record Unlock : Type 0 where
  pub bucket_name : String
  pub object_key : String

abbrev pub bad_key : Unlock → Bool
bad_key req =
    trim_space req.bucket_name == ""
    || trim_space req.object_key == ""
    || has_prefix req.object_key ".trash/"

-- The answer of `forceUnlock` after an error of the tenant API
abbrev pub upstream : {R A : Type 0} → CallError → Handler (World R) Bool A
upstream (http_error status detail) =
    if eqb status 400 || eqb status 404 then refuse status detail else refuse 502 "tenant api error"
upstream failed = refuse 502 "tenant api error"

abbrev pub or_upstream : {R A : Type 0} → Result CallError A → Handler (World R) Bool A
or_upstream (ok a) = pure a
or_upstream (err e) = upstream e

module _ {R : Type 0} (h : LocksHandler R) (r : Request Unlock) (user : User) where
  abbrev pub unlock_entry : Unlock → AuditRow
  unlock_entry req = record {
    user_id = some user.id;
    username = some user.username;
    tenant_id = none;
    tenant_name = none;
    bucket_name = some req.bucket_name;
    object_key = some req.object_key;
    action = "force_unlock_file";
    source_ip = r.origin.source_ip;
    user_agent = r.origin.user_agent;
    status = "";
    error_message = none;
  }

  abbrev pub audit_unlock : Unlock → Handler Store Bool Unit
  audit_unlock req = if h.log then ignore (insert_entry (unlock_entry req)) else pure tt

  unfoldable pub read_unlock : Handler (World R) Bool (Client × Unlock)
  read_unlock = do
    client ← require (reply (error 503 "tenant projection is not configured")) h.project
    req ← require (reply (error 400 "invalid json")) r.body
    guard (not (bad_key req)) (reply (error 400 "Invalid object key"))
    pure (client, req)

  -- `forceUnlock`
  unfoldable pub unlock_file : Handler (World R) Bool (Response Bool)
  unlock_file = do
    (client, req) ← read_unlock
    outcome ←
        attempt
          (on_remote (force_unlock h.net h.decode (some client) req.bucket_name req.object_key))
    unlocked ← or_upstream outcome
    on_db (audit_unlock req)
    pure (json 200 unlocked)
