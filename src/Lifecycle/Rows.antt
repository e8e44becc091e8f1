-- ===== src/Lifecycle/Rows.antt =====
-- internal/lifecycle/store.go
use Prim.Native.String.{count}
use osspilot_ops_api.Common.{
  ℕ, eqb, leb, ltb, ◌+◌, ◌^◌, String, Bool, true, not, ◌&&◌, Option, none, some, List, [], ◌∷◌,
  ◌++◌, map, any, keep, first, if◌then◌else◌,
}
use osspilot_ops_api.Common.Int.{ℤ, pos, negsuc}
use osspilot_ops_api.Action.{Result, ok, err, Action, ◌>>=◌, ◌>>◌, pure}
use osspilot_ops_api.Database.{DbError, broken, exec, query}
use osspilot_ops_api.Schema.{Tables, Store}
use osspilot_ops_api.Schema.Tenants.{GrantRow, LifecycleRow}
use osspilot_ops_api.Buckets.Rows.{by_bucket, least_account, or_zero}
use osspilot_ops_api.Lifecycle.Rules.{Rule}

abbrev pub by_rule : ℕ → LifecycleRow → Bool
by_rule id r = eqb r.id id

-- `scan`: the rule with what the joins give
abbrev pub rule_of : LifecycleRow → String → ℕ → Rule
rule_of r bucket_name tenant_id = record {
  id = r.id;
  bucket_id = r.bucket_id;
  bucket_name = bucket_name;
  tenant_id = tenant_id;
  prefix = r.prefix;
  enabled = r.enabled;
  delete_after_days = r.delete_after_days;
  cleanup_trash_after_days = r.cleanup_trash_after_days;
  cleanup_versions_after_days = r.cleanup_versions_after_days;
  cleanup_multipart_after_days = r.cleanup_multipart_after_days;
  created_at = r.created_at;
  updated_at = r.updated_at;
}

-- The inner join with the bucket drops a rule whose bucket is gone.
unfoldable pub join_rule : Tables → LifecycleRow → List Rule
join_rule t r = elim (first (by_bucket r.bucket_id) t.tenants.buckets) [
  | none ↦ []
  | some b ↦ rule_of r b.bucket_name (or_zero (least_account r.bucket_id t.tenants.grants)) ∷ []
]

unfoldable pub join_rules : Tables → List LifecycleRow → List Rule
unfolding join_rule
join_rules t [] = []
join_rules t (r ∷ rs) = join_rule t r ++ join_rules t rs

abbrev pub on_bucket : Option ℕ → LifecycleRow → Bool
on_bucket none r = true
on_bucket (some id) r = eqb r.bucket_id id

-- EXISTS (SELECT 1 FROM account_bucket_grants …)
abbrev pub granted_to : Tables → Option ℕ → LifecycleRow → Bool
granted_to t none r = true
granted_to t (some account) r =
    any (λ (g : GrantRow). eqb g.bucket_id r.bucket_id && eqb g.account_id account) t.tenants.grants

-- `List`
unfoldable pub list_rules : Option ℕ → Option ℕ → Action Store DbError (List Rule)
unfolding query join_rules
list_rules bucket_id tenant_id = query (λ t. ok (
    join_rules t
      (keep (λ r. on_bucket bucket_id r && granted_to t tenant_id r) t.tenants.lifecycle_rules)))

-- `ListEnabled`
unfoldable pub list_enabled : Action Store DbError (List Rule)
unfolding list_rules
list_enabled = do items ← list_rules none none; pure (keep (λ (r : Rule). r.enabled) items)

abbrev pub head : List Rule → Option Rule
head [] = none
head (r ∷ rs) = some r

-- `GetByID`
unfoldable pub get_rule : ℕ → Action Store DbError (Option Rule)
unfolding query join_rules
get_rule id = query (λ t. ok (head (join_rules t (keep (by_rule id) t.tenants.lifecycle_rules))))

-- INTEGER
abbrev pub day_fits : Option ℤ → Bool
day_fits none = true
day_fits (some (pos n)) = ltb n (2 ^ 31)
day_fits (some (negsuc n)) = ltb n (2 ^ 31)

unfoldable pub rule_fits : LifecycleRow → Bool
rule_fits r =
    leb (count r.prefix) 1024
    && day_fits r.delete_after_days
    && day_fits r.cleanup_trash_after_days
    && day_fits r.cleanup_versions_after_days
    && day_fits r.cleanup_multipart_after_days

abbrev pub with_rules : (List LifecycleRow → List LifecycleRow) → Tables → Tables
with_rules f t = record t {
  tenants = record t.tenants { lifecycle_rules = f t.tenants.lifecycle_rules };
}

abbrev pub add_rule : LifecycleRow → Tables → Tables
add_rule r t = record t {
  tenants = record t.tenants {
    lifecycle_rules = t.tenants.lifecycle_rules ++ r ∷ [];
    next_rule_id = t.tenants.next_rule_id + 1;
  };
}

-- INSERT INTO lifecycle_rules … RETURNING id
unfoldable pub insert_rule_row : (ℕ → LifecycleRow) → Tables → Result DbError ℕ × Tables
insert_rule_row row t =
    let r = row t.tenants.next_rule_id in
    if rule_fits r && any (by_bucket r.bucket_id) t.tenants.buckets
    then (ok r.id, add_rule r t)
    else (err broken, t)

-- `Insert`
unfoldable pub insert_rule : (ℕ → LifecycleRow) → Action Store DbError (Option Rule)
insert_rule row = do id ← exec (insert_rule_row row); get_rule id

-- UPDATE lifecycle_rules SET …
abbrev pub set_rule : Rule → LifecycleRow → LifecycleRow
set_rule u r = record r {
  prefix = u.prefix;
  enabled = u.enabled;
  delete_after_days = u.delete_after_days;
  cleanup_trash_after_days = u.cleanup_trash_after_days;
  cleanup_versions_after_days = u.cleanup_versions_after_days;
  cleanup_multipart_after_days = u.cleanup_multipart_after_days;
  updated_at = u.updated_at;
}

abbrev pub set_rules : Rule → List LifecycleRow → List LifecycleRow
set_rules u = map (λ r. if by_rule u.id r then set_rule u r else r)

-- … WHERE id = $1: a value that does not fit is refused where a row is written.
unfoldable pub update_rule_row : Rule → Tables → Result DbError Unit × Tables
update_rule_row u t =
    if any (λ r. by_rule u.id r && not (rule_fits (set_rule u r))) t.tenants.lifecycle_rules
    then (err broken, t)
    else (ok tt, with_rules (set_rules u) t)

-- `Update`
unfoldable pub update_rule : Rule → Action Store DbError (Option Rule)
update_rule u = do exec (update_rule_row u); get_rule u.id

-- `Delete`, with whether it affected a row
unfoldable pub delete_rule : ℕ → Action Store DbError Bool
delete_rule id = exec (λ t. (
  ok (any (by_rule id) t.tenants.lifecycle_rules),
  with_rules (keep (λ r. not (by_rule id r))) t,
))
