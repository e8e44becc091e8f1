-- ===== src/Grants/Requests.antt =====
-- internal/grants/handler.go. The grants of an account are written to the database and then sent to
-- the tenant API.
pub mod Effect
pub mod Replace
mod Tests
use Prim.Native.String
use osspilot_ops_api.Common.{
  ℕ, suc, eqb, ltb, ◌+◌, String, Bool, true, false, not, ◌&&◌, ◌||◌, Option, none, some, List, [],
  ◌∷◌, map, first, length, ◌==◌, if◌then◌else◌,
}
use osspilot_ops_api.Common.Int.{ℤ, pos, negsuc}
use osspilot_ops_api.Common.Decimal.{parse_id, format_ℕ, format_int}
use osspilot_ops_api.Common.Strings.{join}
use osspilot_ops_api.Action.{Result, ok, err, Action, ◌>>=◌, ◌>>◌, pure, guard, require}
use osspilot_ops_api.Database.{DbError}
use osspilot_ops_api.Http.{
  Response, error, json, no_content, Exit, reply, panic, Handler, refuse, database,
}
use osspilot_ops_api.Schema.{Store}
use osspilot_ops_api.Schema.Tenants.{AccountRow, BucketRow}
use osspilot_ops_api.Auth.{Request}
use osspilot_ops_api.Accounts.Rows.{Account, get_account}
use osspilot_ops_api.Buckets.Rows.{Bucket, get_buckets}
use osspilot_ops_api.Project.{Network, Client, BucketItem, replace_buckets}
use osspilot_ops_api.Project.World.{World, on_db, on_remote}
use osspilot_ops_api.Grants.{unique_ids, exceeds_limit}
use osspilot_ops_api.Grants.Rows.{Grant, list_grants, replace_grants, revoke_grant}

-- `grants.Handler`: whether it has its stores, and its client of the tenant API
pub record GrantsHandler : Type 0 where
  pub store : Bool
  pub accounts : Bool
  pub project : Option Client

-- `putRequest`
pub record PutGrants : Type 0 where
  pub bucket_ids : List ℤ

-- `toList` is left to the encoder, which formats the times.
pub data GrantBody : Type 0 where
  grant_items : List Grant → ℕ → GrantBody

-- `loadAccount`
unfoldable pub load_account :
    {Q : Type 0} → GrantsHandler → Request Q → Handler Store GrantBody Account
load_account h r = do
  id ← require (reply (error 400 "invalid user_id")) (parse_id (r.path_value "user_id"))
  guard (h.store && h.accounts) (reply (error 503 "database is not configured"))
  found ← database (get_account id)
  require (reply (error 404 "Account not found")) found

abbrev pub limit_text : Option ℤ → String
limit_text none = ""
limit_text (some n) = format_int n

-- The buckets of `byID`: active ones
abbrev pub is_usable : ℕ → Bucket → Bool
is_usable id b = eqb b.row.id id && b.row.status == "active"

-- `missing`
unfoldable pub missing_ids : List Bucket → List ℕ → List String
missing_ids found [] = []
missing_ids found (id ∷ ids) =
    let rest = missing_ids found ids in
    elim (first (is_usable id) found) [ none ↦ format_ℕ id ∷ rest | some b ↦ rest ]

-- `ordered`
unfoldable pub ordered_buckets : List Bucket → List ℕ → List Bucket
ordered_buckets found [] = []
ordered_buckets found (id ∷ ids) =
    let rest = ordered_buckets found ids in
    elim (first (is_usable id) found) [ none ↦ rest | some b ↦ b ∷ rest ]

abbrev pub is_none : List String → Bool
is_none [] = true
is_none (x ∷ xs) = false

abbrev pub bucket_item : Bucket → BucketItem
bucket_item b = record { bucket_name = b.row.bucket_name; display_name = b.row.display_name }

abbrev pub grant_item : Grant → BucketItem
grant_item g = record { bucket_name = g.bucket_name; display_name = g.display_name }

-- `replace` up to the call of `Replace`, with the ids and the buckets that it stores
unfoldable pub accept_grants :
    Request PutGrants → Account → Handler Store GrantBody (List ℕ × List Bucket)
accept_grants r acct = do
  req ← require (reply (error 400 "invalid json")) r.body
  ids ←
      require (reply (error 400 "bucket_ids must be positive integers")) (unique_ids req.bucket_ids)
  guard (not (exceeds_limit (length ids) acct.row.bucket_limit)) (
      reply (
        error 409 (
          String.◌++◌ "Account bucket limit ("
            (String.◌++◌ (limit_text acct.row.bucket_limit) ") exceeded"))))
  found ← database (get_buckets ids)
  guard (is_none (missing_ids found ids))
      (reply (error 400 (String.◌++◌ "Unknown bucket ids: " (join (missing_ids found ids) ", "))))
  pure (ids, ordered_buckets found ids)

module _ {S E A : Type 0} where
  abbrev or_502 : Result E A → Handler S GrantBody A
  or_502 (ok a) s = (ok a, s)
  or_502 (err e) s = (err (reply (error 502 "tenant projection failed")), s)

  abbrev pub projected : Action S E A → Handler S GrantBody A
  projected m s = or_502 (m s).0 (m s).1

module _ {R : Type 0} (net : Network R) (collate : String → String → Bool) (h : GrantsHandler) where
  -- The end of `list` and of `replace`
  unfoldable pub answer_grants : ℕ → Handler (World R) GrantBody (Response GrantBody)
  answer_grants account_id = do
    items ← on_db (database (list_grants collate account_id))
    pure (json 200 (grant_items items (length items)))

  unfoldable pub list : {Q : Type 0} → Request Q → Handler (World R) GrantBody (Response GrantBody)
  list r = do acct ← on_db (load_account h r); answer_grants acct.row.id

  unfoldable pub replace : Request PutGrants → Handler (World R) GrantBody (Response GrantBody)
  replace r = do
    acct ← on_db (load_account h r)
    accepted ← on_db (accept_grants r acct)
    on_db (database (replace_grants acct.row.id r.now accepted.0))
    projected
        (on_remote (replace_buckets net h.project acct.row.username (map bucket_item accepted.1)))
    answer_grants acct.row.id

  unfoldable pub revoke :
      {Q : Type 0} → Request Q → Handler (World R) GrantBody (Response GrantBody)
  revoke r = do
    acct ← on_db (load_account h r)
    bucket_id ←
        require (reply (error 400 "invalid bucket_id")) (parse_id (r.path_value "bucket_id"))
    affected ← on_db (database (revoke_grant acct.row.id bucket_id))
    guard affected (reply (error 404 "Bucket grant not found"))
    items ← on_db (database (list_grants collate acct.row.id))
    projected (on_remote (replace_buckets net h.project acct.row.username (map grant_item items)))
    pure no_content
