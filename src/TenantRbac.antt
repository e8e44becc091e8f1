-- ===== src/TenantRbac.antt =====
-- internal/tenantrbac/handler.go: the roles and the permissions of a tenant, through the tenant API.
pub mod Remap
pub mod Clean
pub mod Calls
mod Tests
use Prim.Native.String
use osspilot_ops_api.Common.{
  ℕ, eqb, leb, ltb, String, Bool, true, false, not, ◌&&◌, Option, none, some, ◌==◌, if◌then◌else◌,
}
use osspilot_ops_api.Common.Text.{trim_left, trim_right}
use osspilot_ops_api.Common.Decimal.{parse_id, format_ℕ}
use osspilot_ops_api.Action.{Result, ok, err, Action, attempt, ◌>>=◌, ◌>>◌, pure, guard, require}
use osspilot_ops_api.Http.{Exit, reply, error, Handler, refuse, database}
use osspilot_ops_api.Schema.{Store}
use osspilot_ops_api.Auth.{Request}
use osspilot_ops_api.Auth.Accounts.{User}
use osspilot_ops_api.Audit.Actor.{write_for}
use osspilot_ops_api.Accounts.Rows.{Account, get_account}
use osspilot_ops_api.Project.{Network, Client, CallError}
use osspilot_ops_api.Project.Reads.{RawResponse, do_raw}
use osspilot_ops_api.Project.World.{World, on_db, on_remote}
use Remap.{Codec, number, remap_account_id}

-- `tenantrbac.Handler`: which stores it has, its client of the tenant API, and the libraries
pub record RbacHandler (R : Type 0) : Type 0 where
  pub accounts : Bool
  pub log : Bool
  pub project : Option Client
  pub net : Network R
  pub codec : Codec

-- What `proxy` reads of the request besides
pub record Proxied : Type 0 where
  pub method : String
  pub raw_query : String
  pub body : String
  pub content_type : String

-- The answers of `proxy` other than errors are the status, the content type and the body; only an error
-- is of the common form.
abbrev pub Proxy : Type 0 → Type 0 → Type 0
Proxy R A = Handler (World R) Unit A

is_slash : ℕ → Bool
is_slash c = eqb c b'/'

-- `strings.Trim(s, "/")`
unfoldable pub trim_slashes : String → String
unfolding is_slash trim_left trim_right
trim_slashes s = trim_right is_slash (trim_left is_slash s)

abbrev pub with_query : String → String → String
with_query path q = if q == "" then path else String.◌++◌ path (String.◌++◌ "?" q)

-- `raw, err := h.project.DoRaw(…)` and its error
abbrev pub or_502 : {R : Type 0} → Result CallError RawResponse → Proxy R RawResponse
or_502 (ok raw) = pure raw
or_502 (err e) = refuse 502 "tenant api error"

abbrev pub or_same : String → Option String → String
or_same body none = body
or_same body (some out) = out

abbrev pub is_success : ℕ → Bool
is_success status = leb 200 status && ltb status 300

abbrev pub with_content_type : RawResponse → String → RawResponse
with_content_type raw body = record {
  status = raw.status;
  content_type =
      if not (raw.content_type == "")
      then raw.content_type
      else if not (body == "")
      then "application/json"
      else "";
  body = body;
}

module _ {R : Type 0} (h : RbacHandler R) (r : Request Unit) (call : Proxied)
    (user : Option User) where
  -- The path of `proxy` at the tenant API
  unfoldable pub target : String → String → String
  target username rest =
      with_query
        (String.◌++◌ "/internal/accounts/"
          (String.◌++◌ (h.net.escape username) (String.◌++◌ "/rbac/" rest)))
        call.raw_query

  -- `proxy` before the call
  unfoldable pub load_target : Handler Store Unit (Account × String)
  load_target = do
    guard h.accounts (reply (error 503 "database is not configured"))
    client ← require (reply (error 503 "tenant projection is not configured")) h.project
    id ← require (reply (error 400 "invalid user_id")) (parse_id (r.path_value "user_id"))
    found ← database (get_account id)
    acct ← require (reply (error 404 "Account not found")) found
    let rest = trim_slashes (r.path_value "rest")
    guard (not (rest == "")) (reply (error 404 "not found"))
    pure (acct, rest)

  -- `if user != nil && r.Method != http.MethodGet { audit.Write(…) }`
  abbrev pub audit_change : Handler Store Unit Unit
  audit_change =
      if call.method == "GET"
      then pure tt
      else write_for h.log r.origin user "modify_permission" "" "success" ""

  -- `proxy` after the call
  unfoldable pub answer_raw : Account → RawResponse → Proxy R RawResponse
  answer_raw acct raw =
      if is_success raw.status
      then (do
        let body =
            or_same raw.body (remap_account_id h.codec raw.body (number (format_ℕ acct.row.id)))
        on_db audit_change
        pure (with_content_type raw body))
      else pure (with_content_type raw raw.body)

  unfoldable pub proxy : Proxy R RawResponse
  proxy = do
    (acct, rest) ← on_db load_target
    outcome ← attempt (
        on_remote (
          do_raw h.net h.project call.method (target acct.row.username rest) call.body
            call.content_type))
    raw ← or_502 outcome
    answer_raw acct raw
