-- ===== src/Access.antt =====
-- internal/access: the requests of tenants for access to the API.
pub mod Binding
mod Tests
use Prim.Native.String
use Prim.Native.String.{count}
use osspilot_ops_api.Common.{
  ℕ, eqb, ltb, String, Bool, true, false, not, ◌||◌, Option, none, some, List, [], ◌∷◌, length,
  first, ◌==◌, if◌then◌else◌,
}
use osspilot_ops_api.Common.Int.{ℤ, pos}
use osspilot_ops_api.Common.Decimal.{parse_id}
use osspilot_ops_api.Action.{Result, ok, err, Action, attempt, ◌>>=◌, ◌>>◌, pure, guard, require}
use osspilot_ops_api.Http.{Response, json, Exit, reply, error, Handler, refuse, database}
use osspilot_ops_api.Schema.{Store}
use osspilot_ops_api.Schema.Audit.{AuditRow}
use osspilot_ops_api.Auth.{Request}
use osspilot_ops_api.Auth.Accounts.{User}
use osspilot_ops_api.Audit.{ignore, insert_entry}
use osspilot_ops_api.Accounts.Rows.{Account, get_account, list_accounts}
use osspilot_ops_api.Project.{Network, Client, CallError, http_error, failed}
use osspilot_ops_api.Project.Reads.{
  AccessItem, AccessDecoder, list_access, get_access, review_access,
}
use osspilot_ops_api.Project.World.{World, on_db, on_remote}

-- `access.Handler`: which stores it has, its client of the tenant API, and the libraries
pub record AccessHandler (R : Type 0) : Type 0 where
  pub accounts : Bool
  pub log : Bool
  pub project : Option Client
  pub net : Network R
  pub decode : AccessDecoder

pub data AccessBody : Type 0 where
  access_items : List AccessItem → ℕ → AccessBody
  one : AccessItem → AccessBody

abbrev pub has_name : String → Account → Bool
has_name name a = a.row.username == name

-- The map `byName`, as `bindOpsIDs` reads it: the last account of a name is the one that is kept.
unfoldable pub by_name : List Account → String → Option ℕ
by_name [] name = none
by_name (a ∷ accs) name = elim (by_name accs name) [
  | some id ↦ some id
  | none ↦ if has_name name a then some a.row.id else none
]

abbrev bound : Option ℕ → AccessItem → List AccessItem → List AccessItem
bound none it rest = rest
bound (some id) it rest = record it { account_id = pos id } ∷ rest

-- `bindOpsIDs`
unfoldable pub bind_ops_ids : List AccessItem → (String → Option ℕ) → List AccessItem
bind_ops_ids [] names = []
bind_ops_ids (it ∷ its) names =
    let rest = bind_ops_ids its names in bound (names it.account_name) it rest

-- `writeUpstream`
abbrev pub write_upstream : {R A : Type 0} → CallError → Handler (World R) AccessBody A
write_upstream (http_error status detail) =
    if eqb status 404 || eqb status 409 || eqb status 400
    then refuse status detail
    else refuse 502 "tenant api error"
write_upstream failed = refuse 502 "tenant api error"

abbrev pub or_upstream : {R A : Type 0} → Result CallError A → Handler (World R) AccessBody A
or_upstream (ok a) = pure a
or_upstream (err e) = write_upstream e

-- The request of `review`: whether there is a body, and what the JSON decoder reads of its field
-- `note`
pub record Review : Type 0 where
  pub note : Option String

abbrev pub too_long : Option String → Bool
too_long none = false
too_long (some note) = ltb 2000 (count note)

abbrev pub for_account : Account → AccessItem → AccessItem
for_account acct item = record item {
  account_id = pos acct.row.id;
  account_name = acct.row.username;
}

module _ {R : Type 0} (h : AccessHandler R) where
  -- `ready`, with the client
  unfoldable pub ready : Handler Store AccessBody Client
  ready = do
    guard h.accounts (reply (error 503 "database is not configured"))
    require (reply (error 503 "tenant projection is not configured")) h.project

  -- `list`, where `status` is that of the query
  unfoldable pub list : String → Handler (World R) AccessBody (Response AccessBody)
  list status = do
    client ← on_db ready
    outcome ← attempt (on_remote (list_access h.net h.decode client status))
    found ← or_upstream outcome
    accs ← on_db (database list_accounts)
    let out = bind_ops_ids found (by_name accs)
    pure (json 200 (access_items out (length out)))

  module _ {Q : Type 0} (r : Request Q) where
    -- `loadAccount`
    unfoldable pub load_account : Handler Store AccessBody (Client × Account)
    load_account = do
      client ← ready
      id ← require (reply (error 400 "invalid account_id")) (parse_id (r.path_value "account_id"))
      found ← database (get_account id)
      acct ← require (reply (error 404 "Account not found")) found
      pure (client, acct)

    -- `get`
    unfoldable pub get : Handler (World R) AccessBody (Response AccessBody)
    get = do
      (client, acct) ← on_db load_account
      outcome ← attempt (on_remote (get_access h.net h.decode client acct.row.username))
      item ← or_upstream outcome
      pure (json 200 (one (for_account acct item)))

  module _ (action : String) (r : Request Review) (has_body : Bool) (user : User) where
    abbrev pub review_entry : Account → AuditRow
    review_entry acct = record {
      user_id = some user.id;
      username = some user.username;
      tenant_id = some acct.row.id;
      tenant_name = some acct.row.username;
      bucket_name = none;
      object_key = none;
      action = String.◌++◌ action "_tenant_api_access";
      source_ip = r.origin.source_ip;
      user_agent = r.origin.user_agent;
      status = "";
      error_message = none;
    }

    abbrev pub audit_review : Account → Handler Store AccessBody Unit
    audit_review acct = if h.log then ignore (insert_entry (review_entry acct)) else pure tt

    abbrev pub read_note : Handler Store AccessBody (Option String)
    read_note =
        if has_body
        then (do req ← require (reply (error 400 "invalid json")) r.body; pure req.note)
        else pure none

    -- `review` before the call
    unfoldable pub read_review : Handler Store AccessBody (Client × Account × Option String)
    read_review = do
      (client, acct) ← load_account r
      note ← read_note
      guard (not (too_long note)) (reply (error 400 "note is too long"))
      pure (client, acct, note)

    -- `review`
    unfoldable pub review : Handler (World R) AccessBody (Response AccessBody)
    review = do
      (client, acct, note) ← on_db read_review
      outcome ←
          attempt (on_remote (review_access h.net h.decode client acct.row.username action note))
      item ← or_upstream outcome
      on_db (audit_review acct)
      pure (json 200 (one (record (for_account acct item) { reviewed_by = some (pos user.id) })))
