-- ===== src/Lifecycle/Requests/Days.antt =====
-- The days of the stored rules, after the requests of internal/lifecycle.
use osspilot_ops_api.Common.{
  ℕ, not, String, ◌≡◌, Bool, Option, List, [], ◌∷◌, All, All-append, All-keep, arith,
}
use osspilot_ops_api.Common.Int.{ℤ}
use osspilot_ops_api.Action.{ok, ◌>>=◌}
use osspilot_ops_api.Action.Keeps.{Keeps, Returns, Keeps-bind, Keeps-bind_post}
use osspilot_ops_api.Database.Keeps.{OnTables, Keeps-exec, Keeps-query}
use osspilot_ops_api.Http.Keeps.{handler_rules}
use osspilot_ops_api.Audit.{Origin}
use osspilot_ops_api.Http.{Handler}
use osspilot_ops_api.Schema.{Tables, Store}
use osspilot_ops_api.Schema.Tenants.{LifecycleRow}
use osspilot_ops_api.Auth.{Request}
use osspilot_ops_api.Auth.Accounts.{User}
use osspilot_ops_api.Lifecycle.Rules.{Rule, require_action, valid_days}
use osspilot_ops_api.Lifecycle.Rows.{
  by_rule, set_rule, set_rules, insert_rule_row, update_rule_row, insert_rule, update_rule,
  delete_rule, get_rule,
}
use osspilot_ops_api.Lifecycle.Requests.{
  LifecycleHandler, CreateRule, RuleBody, remove_handler, ready, path_id, check_new, new_rule,
  create_handler,
}
use osspilot_ops_api.Buckets.Rows.{get_bucket}
use osspilot_ops_api.Audit.Actor.{write_for, write_for_lem}

-- The days pass the tests of the handlers.
abbrev pub ValidDays : Option ℤ → Option ℤ → Option ℤ → Option ℤ → Type 0
ValidDays a b c d =
    (valid_days a ≡ ok tt)
    × (valid_days b ≡ ok tt)
    × (valid_days c ≡ ok tt)
    × (valid_days d ≡ ok tt)

abbrev pub HasDays : LifecycleRow → Type 0
HasDays r =
    ValidDays r.delete_after_days r.cleanup_trash_after_days r.cleanup_versions_after_days
      r.cleanup_multipart_after_days

abbrev pub RuleDays : Rule → Type 0
RuleDays r =
    ValidDays r.delete_after_days r.cleanup_trash_after_days r.cleanup_versions_after_days
      r.cleanup_multipart_after_days

-- All stored rules have the property.
unfoldable pub AllRules : (LifecycleRow → Type 0) → Tables → Type 0
AllRules P t = All P t.tenants.lifecycle_rules

module _ (P : LifecycleRow → Type 0) where
  pub delete_rule-AllRules : (id : ℕ) → Keeps (OnTables (AllRules P)) (delete_rule id)
  unfolding delete_rule AllRules
  delete_rule-AllRules id =
      Keeps-exec _ (λ t h. All-keep P (λ r. not (by_rule id r)) t.tenants.lifecycle_rules h)

  pub get_rule-AllRules : (id : ℕ) → Keeps (OnTables (AllRules P)) (get_rule id)
  unfolding get_rule
  get_rule-AllRules id = Keeps-query _

  pub write_for-AllRules :
      (log : Bool) (origin : Origin) (user : Option User) (action bucket status message : String)
      → Keeps
          (OnTables (AllRules P))
          (write_for {B = RuleBody} log origin user action bucket status message)
  unfolding AllRules
  write_for-AllRules log origin user action bucket status message = record {
    at = λ s h. record {
      holds =
          rw ((write_for_lem RuleBody log origin action bucket status message s user).3) h.holds;
    };
  }

  pub ready-AllRules : (h : LifecycleHandler) → Keeps (OnTables (AllRules P)) (ready h)
  unfolding ready
  ready-AllRules h = search handler_rules

  pub path_id-AllRules :
      {Q : Type 0} (r : Request Q) (name : String) → Keeps (OnTables (AllRules P)) (path_id r name)
  unfolding path_id
  path_id-AllRules r name = search handler_rules

  insert_rule_row-AllRules :
      (row : ℕ → LifecycleRow) (t : Tables)
      → ((n : ℕ) → P (row n))
      → AllRules P t
      → AllRules P (insert_rule_row row t).1
  unfolding insert_rule_row AllRules
  insert_rule_row-AllRules row t new h = ground (
    arith,
    All-append P t.tenants.lifecycle_rules (row t.tenants.next_rule_id ∷ []) h
        (new t.tenants.next_rule_id, tt),
  )

  pub insert_rule-AllRules :
      (row : ℕ → LifecycleRow)
      → ((n : ℕ) → P (row n))
      → Keeps (OnTables (AllRules P)) (insert_rule row)
  unfolding insert_rule
  insert_rule-AllRules row new =
      Keeps-bind _ _ (Keeps-exec _ (λ t. insert_rule_row-AllRules row t new)) get_rule-AllRules

  All-set_rules :
      (u : Rule)
      → ((r : LifecycleRow) → P (set_rule u r))
      → (rs : List LifecycleRow) → All P rs
      → All P (set_rules u rs)
  All-set_rules u new [] h = tt
  All-set_rules u new (r ∷ rs) (h, hs) = ground (arith, new r, All-set_rules u new rs hs)

  update_rule_row-AllRules :
      (u : Rule) (t : Tables)
      → ((r : LifecycleRow) → P (set_rule u r))
      → AllRules P t
      → AllRules P (update_rule_row u t).1
  unfolding update_rule_row AllRules
  update_rule_row-AllRules u t new h =
      ground (arith, All-set_rules u new t.tenants.lifecycle_rules h)

  pub update_rule-AllRules :
      (u : Rule)
      → ((r : LifecycleRow) → P (set_rule u r))
      → Keeps (OnTables (AllRules P)) (update_rule u)
  unfolding update_rule
  update_rule-AllRules u new =
      Keeps-bind _ _ (Keeps-exec _ (λ t. update_rule_row-AllRules u t new))
        (λ _. get_rule-AllRules u.id)

  pub get_bucket-AllRules : (id : ℕ) → Keeps (OnTables (AllRules P)) (get_bucket id)
  unfolding get_bucket
  get_bucket-AllRules id = Keeps-query _

  pub check_new-AllRules : (req : CreateRule) → Keeps (OnTables (AllRules P)) (check_new req)
  unfolding check_new
  check_new-AllRules req = record { at = λ s h. ground arith }

  pub ruleset all_rules = (
    handler_rules, ready-AllRules, path_id-AllRules, get_rule-AllRules, delete_rule-AllRules,
    write_for-AllRules, insert_rule-AllRules, update_rule-AllRules, get_bucket-AllRules,
    check_new-AllRules,
  )

-- What `create` has checked before it inserts.
abbrev pub Accepted : CreateRule → Type 0
Accepted req =
    ValidDays req.delete_after_days req.cleanup_trash_after_days req.cleanup_versions_after_days
      req.cleanup_multipart_after_days
    × (require_action req.delete_after_days req.cleanup_trash_after_days
          req.cleanup_versions_after_days req.cleanup_multipart_after_days
        ≡ ok tt)

module _ {P : Store → Type 0} where
  check_new-Accepted : (req : CreateRule) → Returns P (λ _. Accepted req) (check_new req)
  unfolding check_new
  check_new-Accepted req = record { result = λ s h a e. ground arith }

  check_new-bind :
      {A : Type 0} (req : CreateRule) (f : Unit → Handler Store RuleBody A)
      → Keeps P (check_new req)
      → (Accepted req → (u : Unit) → Keeps P (f u))
      → Keeps P (check_new req >>= f)
  check_new-bind req f kept go =
      Keeps-bind_post (λ _. Accepted req) (check_new req) f kept (check_new-Accepted req)
        (λ u a. go a u)

module _ (P : LifecycleRow → Type 0) where
  pub remove-AllRules :
      {Q : Type 0} (h : LifecycleHandler) (r : Request Q) (user : Option User)
      → Keeps (OnTables (AllRules P)) (remove_handler h r user)
  unfolding remove_handler
  remove-AllRules h r user = search all_rules depth 20

  -- A property that the accepted requests give their rows.
  pub create-AllRules :
      (h : LifecycleHandler) (r : Request CreateRule) (user : Option User)
      → ((req : CreateRule) → Accepted req → (bucket_id at n : ℕ) → P (new_rule bucket_id req at n))
      → Keeps (OnTables (AllRules P)) (create_handler h r user)
  unfolding create_handler
  create-AllRules h r user new = search (all_rules, check_new-bind, new) depth 24
