-- ===== src/Lifecycle/Requests.antt =====
-- internal/lifecycle/handler.go. `query_value` is `r.URL.Query().Get`.
pub mod Days
pub mod Updates
mod Tests
use Prim.Native.String
use Prim.Native.String.{len}
use osspilot_ops_api.Common.{
  ℕ, ltb, String, Bool, true, false, not, ◌&&◌, Option, none, some, List, [], ◌∷◌, any, length,
  ◌==◌, if◌then◌else◌,
}
use osspilot_ops_api.Common.Int.{ℤ}
use osspilot_ops_api.Common.Text.{trim_space}
use osspilot_ops_api.Common.Decimal.{parse_id}
use osspilot_ops_api.Action.{Result, ok, err, attempt, ◌>>=◌, ◌>>◌, pure, guard, require}
use osspilot_ops_api.Http.{
  Response, error, json, no_content, Exit, reply, panic, Handler, refuse, database,
}
use osspilot_ops_api.Schema.{Store}
use osspilot_ops_api.Schema.Tenants.{LifecycleRow}
use osspilot_ops_api.Audit.Actor.{write_for}
use osspilot_ops_api.Auth.{Request}
use osspilot_ops_api.Auth.Accounts.{User}
use osspilot_ops_api.Buckets.Rows.{get_bucket}
use osspilot_ops_api.Lifecycle.Rules.{Rule, require_action, valid_days}
use osspilot_ops_api.Lifecycle.Rows.{list_rules, get_rule, insert_rule, update_rule, delete_rule}

-- `lifecycle.Handler`: whether it has its store, the store of the buckets and an audit log.
pub record LifecycleHandler : Type 0 where
  pub store : Bool
  pub buckets : Bool
  pub audit : Bool

pub record CreateRule : Type 0 where
  pub prefix : String
  pub enabled : Option Bool
  pub delete_after_days : Option ℤ
  pub cleanup_trash_after_days : Option ℤ
  pub cleanup_versions_after_days : Option ℤ
  pub cleanup_multipart_after_days : Option ℤ

-- `raw_keys` are the keys of the body, and the other fields its decoding.
pub record UpdateRule : Type 0 where
  pub raw_keys : List String
  pub prefix : Option String
  pub enabled : Option Bool
  pub delete_after_days : Option ℤ
  pub cleanup_trash_after_days : Option ℤ
  pub cleanup_versions_after_days : Option ℤ
  pub cleanup_multipart_after_days : Option ℤ

-- `toJSON` is left to the encoder, which formats the times.
pub data RuleBody : Type 0 where
  rule_items : List Rule → ℕ → RuleBody
  rule_item : Rule → RuleBody

-- `ready`
unfoldable pub ready : LifecycleHandler → Handler Store RuleBody Unit
ready h = guard (h.store && h.buckets) (reply (error 503 "database is not configured"))

module _ {Q : Type 0} (r : Request Q) where
  -- `pathID`
  unfoldable pub path_id : String → Handler Store RuleBody ℕ
  path_id name =
      require (reply (error 400 (String.◌++◌ "invalid " name))) (parse_id (r.path_value name))

abbrev pub positive : String → Option ℕ → Handler Store RuleBody (Option ℕ)
positive name none = refuse 400 (String.◌++◌ name " must be a positive integer")
positive name (some id) = pure (some id)

-- `optQueryID`
unfoldable pub opt_query_id : (String → String) → String → Handler Store RuleBody (Option ℕ)
opt_query_id query_value name =
    let raw = trim_space (query_value name) in
    if raw == "" then pure none else positive name (parse_id raw)

-- `if err := …; err != nil { httpx.Error(w, http.StatusBadRequest, err.Error()); return }`
abbrev pub rule_check : Result String Unit → Handler Store RuleBody Unit
rule_check (ok _) = pure tt
rule_check (err detail) = refuse 400 detail

abbrev pub true_or : Option Bool → Bool
true_or none = true
true_or (some b) = b

-- The row of `Insert`, and the id that the table gives it
abbrev pub new_rule : ℕ → CreateRule → ℕ → ℕ → LifecycleRow
new_rule bucket_id req at id = record {
  id = id;
  bucket_id = bucket_id;
  prefix = req.prefix;
  enabled = true_or req.enabled;
  delete_after_days = req.delete_after_days;
  cleanup_trash_after_days = req.cleanup_trash_after_days;
  cleanup_versions_after_days = req.cleanup_versions_after_days;
  cleanup_multipart_after_days = req.cleanup_multipart_after_days;
  created_at = at;
  updated_at = at;
}

-- `list`
unfoldable pub list_handler :
    LifecycleHandler → (String → String) → Handler Store RuleBody (Response RuleBody)
list_handler h query_value = do
  ready h
  bucket_id ← opt_query_id query_value "bucket_id"
  tenant_id ← opt_query_id query_value "tenant_id"
  items ← database (list_rules bucket_id tenant_id)
  pure (json 200 (rule_items items (length items)))

-- The tests of `create` on its request
unfoldable pub check_new : CreateRule → Handler Store RuleBody Unit
check_new req = do
  guard (not (ltb 1024 (len req.prefix)))
      (reply (error 400 "prefix must be at most 1024 characters"))
  rule_check (valid_days req.delete_after_days)
  rule_check (valid_days req.cleanup_trash_after_days)
  rule_check (valid_days req.cleanup_versions_after_days)
  rule_check (valid_days req.cleanup_multipart_after_days)
  rule_check (
      require_action req.delete_after_days req.cleanup_trash_after_days
        req.cleanup_versions_after_days req.cleanup_multipart_after_days)

module _ (h : LifecycleHandler) (r : Request CreateRule) (user : Option User) where
  -- `create`
  unfoldable pub create_handler : Handler Store RuleBody (Response RuleBody)
  create_handler = do
    ready h
    bucket_id ← path_id r "bucket_id"
    found ← database (get_bucket bucket_id)
    b ← require (reply (error 404 "Bucket not found")) found
    req ← require (reply (error 400 "invalid json")) r.body
    check_new req
    out ← database (insert_rule (new_rule bucket_id req r.now))
    write_for h.audit r.origin user "create_lifecycle_rule" b.row.bucket_name "success" ""
    item ← require panic out
    pure (json 201 (rule_item item))

-- `load`
unfoldable pub load_rule : {Q : Type 0} → LifecycleHandler → Request Q → Handler Store RuleBody Rule
load_rule h r = do
  ready h
  id ← path_id r "rule_id"
  found ← database (get_rule id)
  require (reply (error 404 "Lifecycle rule not found")) found

-- `if req.Prefix != nil { … }`
unfoldable pub new_prefix : Option String → String → Handler Store RuleBody String
new_prefix none old = pure old
new_prefix (some p) old = do
  guard (not (ltb 1024 (len p))) (reply (error 400 "prefix must be at most 1024 characters"))
  pure p

abbrev pub new_enabled : Option Bool → Bool → Bool
new_enabled none old = old
new_enabled (some b) old = b

-- `if _, ok := raw[key]; ok { … }`
unfoldable pub new_days :
    List String → String → Option ℤ → Option ℤ → Handler Store RuleBody (Option ℤ)
new_days raw_keys key days old =
    if any (λ k. k == key) raw_keys then (do rule_check (valid_days days); pure days) else pure old

abbrev pub is_empty : List String → Bool
is_empty [] = true
is_empty (x ∷ xs) = false

-- The rule with the fields of the request
unfoldable pub edit_rule : ℕ → UpdateRule → Rule → Handler Store RuleBody Rule
edit_rule now req item = do
  prefix ← new_prefix req.prefix item.prefix
  delete_days ←
      new_days req.raw_keys "delete_after_days" req.delete_after_days item.delete_after_days
  trash_days ←
      new_days req.raw_keys "cleanup_trash_after_days" req.cleanup_trash_after_days
        item.cleanup_trash_after_days
  version_days ←
      new_days req.raw_keys "cleanup_versions_after_days" req.cleanup_versions_after_days
        item.cleanup_versions_after_days
  multipart_days ←
      new_days req.raw_keys "cleanup_multipart_after_days" req.cleanup_multipart_after_days
        item.cleanup_multipart_after_days
  pure (record item {
    prefix = prefix;
    enabled = new_enabled req.enabled item.enabled;
    delete_after_days = delete_days;
    cleanup_trash_after_days = trash_days;
    cleanup_versions_after_days = version_days;
    cleanup_multipart_after_days = multipart_days;
    updated_at = now;
  })

module _ (h : LifecycleHandler) (r : Request UpdateRule) (user : Option User) where
  -- `update`
  unfoldable pub update_handler : Handler Store RuleBody (Response RuleBody)
  update_handler = do
    item ← load_rule h r
    req ← require (reply (error 400 "invalid json")) r.body
    guard (not (is_empty req.raw_keys)) (reply (error 400 "No fields to update"))
    u ← edit_rule r.now req item
    out ← database (update_rule u)
    write_for h.audit r.origin user "update_lifecycle_rule" item.bucket_name "success" ""
    written ← require panic out
    pure (json 200 (rule_item written))

-- `existing, _ := …` and `if existing != nil { name = … }`
abbrev pub name_of : {E : Type 0} → Result E (Option Rule) → String
name_of (ok (some r)) = r.bucket_name
name_of _ = ""

module _ {Q : Type 0} (h : LifecycleHandler) (r : Request Q) (user : Option User) where
  -- `remove`
  unfoldable pub remove_handler : Handler Store RuleBody (Response RuleBody)
  remove_handler = do
    ready h
    id ← path_id r "rule_id"
    existing ← attempt (get_rule id)
    affected ← database (delete_rule id)
    guard affected (reply (error 404 "Lifecycle rule not found"))
    write_for h.audit r.origin user "delete_lifecycle_rule" (name_of existing) "success" ""
    pure no_content
