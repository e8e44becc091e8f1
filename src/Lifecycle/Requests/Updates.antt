-- ===== src/Lifecycle/Requests/Updates.antt =====
-- `update` of internal/lifecycle, and sequences of requests.
use osspilot_ops_api.Common.{ℕ, String, ◌≡◌, Option, none, some, List, [], ◌∷◌, All, arith, keep}
use osspilot_ops_api.Common.Int.{ℤ}
use osspilot_ops_api.Action.{ok, ◌>>=◌}
use osspilot_ops_api.Action.Keeps.{
  Keeps, Returns, Keeps-bind_post, Returns-bind, Returns-bind_any, Returns-pure, Returns-require,
}
use osspilot_ops_api.Http.{Handler}
use osspilot_ops_api.Http.Keeps.{handler_rules, Keeps-database, Returns-database}
use osspilot_ops_api.Database.Keeps.{OnTables}
use osspilot_ops_api.Schema.{Tables, Store}
use osspilot_ops_api.Schema.Tenants.{LifecycleRow}
use osspilot_ops_api.Auth.{Request}
use osspilot_ops_api.Auth.Accounts.{User}
use osspilot_ops_api.Lifecycle.Rules.{Rule, require_action, valid_days}
use osspilot_ops_api.Lifecycle.Rows.{by_rule, get_rule, join_rule, join_rules, head}
use osspilot_ops_api.Lifecycle.Requests.{
  LifecycleHandler, CreateRule, UpdateRule, RuleBody, create_handler, update_handler,
  remove_handler, load_rule, edit_rule, new_days, new_prefix,
}
use osspilot_ops_api.Lifecycle.Requests.Days.{
  AllRules, HasDays, RuleDays, all_rules, create-AllRules, remove-AllRules, ready-AllRules,
  path_id-AllRules, get_rule-AllRules,
}

-- What the handlers keep of all stored rules
abbrev DaysHold : Store → Type 0
DaysHold = OnTables (AllRules HasDays)

HeadDays : Option Rule → Type 0
HeadDays found = (u : Rule) → found ≡ some u → RuleDays u

head-join_rules :
    (t : Tables) (id : ℕ) (rs : List LifecycleRow)
    → All HasDays rs
    → HeadDays (head (join_rules t (keep (by_rule id) rs)))
unfolding join_rules join_rule HeadDays
head-join_rules t id [] h u e = cc
head-join_rules t id (r ∷ rs) (h, hs) u e = ground (arith, head-join_rules t id rs hs u)

get_rule-HeadDays : (id : ℕ) → Returns DaysHold HeadDays (get_rule id)
unfolding get_rule AllRules HeadDays
get_rule-HeadDays id = record {
  result = λ s h found e u p.
      ground (arith, head-join_rules s.tables id s.tables.tenants.lifecycle_rules h.holds u);
}

new_days-ValidDays :
    (raw_keys : List String) (key : String) (days old : Option ℤ)
    → valid_days old ≡ ok tt
    → Returns DaysHold (λ d. valid_days d ≡ ok tt) (new_days raw_keys key days old)
unfolding new_days
new_days-ValidDays raw_keys key days old h = record { result = λ s k d e. ground arith }

new_days-DaysHold :
    (raw_keys : List String) (key : String) (days old : Option ℤ)
    → Keeps DaysHold (new_days raw_keys key days old)
unfolding new_days
new_days-DaysHold raw_keys key days old = record { at = λ s h. ground arith }

new_prefix-DaysHold : (p : Option String) (old : String) → Keeps DaysHold (new_prefix p old)
unfolding new_prefix
new_prefix-DaysHold none old = record { at = λ s h. h }
new_prefix-DaysHold (some p) old = search handler_rules depth 10

edit_rule-DaysHold :
    (now : ℕ) (req : UpdateRule) (item : Rule) → Keeps DaysHold (edit_rule now req item)
unfolding edit_rule
edit_rule-DaysHold now req item =
    search (handler_rules, new_days-DaysHold, new_prefix-DaysHold) depth 20

-- Valid days stay valid under the edit.
edit_rule-RuleDays :
    (now : ℕ) (req : UpdateRule) (item : Rule)
    → RuleDays item
    → Returns DaysHold RuleDays (edit_rule now req item)
unfolding edit_rule
edit_rule-RuleDays now req item (a, b, c, d) =
    let field =
      λ (key : String) (days old : Option ℤ). new_days-DaysHold req.raw_keys key days old in
    Returns-bind_any _ _ (new_prefix-DaysHold req.prefix item.prefix) λ prefix.
      Returns-bind _ _ _ (field _ _ _) (new_days-ValidDays _ _ _ _ a) λ x vx.
        Returns-bind _ _ _ (field _ _ _) (new_days-ValidDays _ _ _ _ b) λ y vy.
          Returns-bind _ _ _ (field _ _ _) (new_days-ValidDays _ _ _ _ c) λ z vz.
            Returns-bind _ _ _ (field _ _ _) (new_days-ValidDays _ _ _ _ d)
              λ w vw. Returns-pure _ (vx, vy, vz, vw)

load_rule-DaysHold :
    {Q : Type 0} (h : LifecycleHandler) (r : Request Q) → Keeps DaysHold (load_rule h r)
unfolding load_rule
load_rule-DaysHold h r = search all_rules depth 20

load_rule-RuleDays :
    {Q : Type 0} (h : LifecycleHandler) (r : Request Q) → Returns DaysHold RuleDays (load_rule h r)
unfolding load_rule HeadDays
load_rule-RuleDays h r = Returns-bind_any _ _ (ready-AllRules HasDays h) λ _.
    Returns-bind_any _ _ (path_id-AllRules HasDays r "rule_id") λ id.
      Returns-bind HeadDays _ _ (Keeps-database _ (get_rule-AllRules HasDays id))
        (Returns-database _ (get_rule-HeadDays id)) λ found days. Returns-require _ found days

load_rule-bind :
    {Q A : Type 0} (h : LifecycleHandler) (r : Request Q) (f : Rule → Handler Store RuleBody A)
    → ((item : Rule) → RuleDays item → Keeps DaysHold (f item))
    → Keeps DaysHold (load_rule h r >>= f)
load_rule-bind h r f go =
    Keeps-bind_post RuleDays _ f (load_rule-DaysHold h r) (load_rule-RuleDays h r) go

edit_rule-bind :
    {A : Type 0} (now : ℕ) (req : UpdateRule) (item : Rule) (f : Rule → Handler Store RuleBody A)
    → RuleDays item
    → ((u : Rule) → RuleDays u → Keeps DaysHold (f u))
    → Keeps DaysHold (edit_rule now req item >>= f)
edit_rule-bind now req item f days go =
    Keeps-bind_post RuleDays _ f (edit_rule-DaysHold now req item)
      (edit_rule-RuleDays now req item days) go

update-DaysHold :
    (h : LifecycleHandler) (r : Request UpdateRule) (user : Option User)
    → Keeps DaysHold (update_handler h r user)
unfolding update_handler
update-DaysHold h r user = search (load_rule-bind, edit_rule-bind, all_rules) depth 24

module _ (h : LifecycleHandler) where
  -- A request of any operator, between which faults may be set anew.
  pub data Step (s s' : Store) : Type 0 where
    creates :
        (r : Request CreateRule) (user : Option User)
        → s'.tables ≡ (create_handler h r user s).1.tables
        → Step s s'
    updates :
        (r : Request UpdateRule) (user : Option User)
        → s'.tables ≡ (update_handler h r user s).1.tables
        → Step s s'
    removes :
        (r : Request Unit) (user : Option User)
        → s'.tables ≡ (remove_handler h r user s).1.tables
        → Step s s'

  pub data Reach (s : Store) : Store → Type 0 where
    here : Reach s s
    next : {t u : Store} → Reach s t → Step t u → Reach s u

  Step-HasDays : {s t : Store} → Step s t → AllRules HasDays s.tables → AllRules HasDays t.tables
  Step-HasDays {s} (creates r user e) a =
      rw e
        ((create-AllRules HasDays h r user (λ req acc b n k. acc.0)).at s
          (record { holds = a })).holds
  Step-HasDays {s} (updates r user e) a =
      rw e ((update-DaysHold h r user).at s (record { holds = a })).holds
  Step-HasDays {s} (removes r user e) a =
      rw e ((remove-AllRules HasDays h r user).at s (record { holds = a })).holds

  -- Every sequence of requests to internal/lifecycle, whatever fails, keeps all days of all stored
  -- rules at 1 or more where they are set.
  pub Reach-HasDays :
      {s t : Store} → Reach s t → AllRules HasDays s.tables → AllRules HasDays t.tables
  Reach-HasDays here a = a
  Reach-HasDays (next r st) a = Step-HasDays st (Reach-HasDays r a)

-- At least one of the four actions is configured.
abbrev pub HasAction : LifecycleRow → Type 0
HasAction r =
    require_action r.delete_after_days r.cleanup_trash_after_days r.cleanup_versions_after_days
      r.cleanup_multipart_after_days
    ≡ ok tt

-- `create` and `remove` keep an action in every stored rule, whatever fails.
pub stored_actions :
    (h : LifecycleHandler) (user : Option User) (s : Store)
    → AllRules HasAction s.tables
    → ((r : Request CreateRule) → AllRules HasAction (create_handler h r user s).1.tables)
      × ((r : Request Unit) → AllRules HasAction (remove_handler h r user s).1.tables)
stored_actions h user s a = (
  λ r.
      ((create-AllRules HasAction h r user (λ req acc b n k. acc.1)).at s
        (record { holds = a })).holds,
  λ r. ((remove-AllRules HasAction h r user).at s (record { holds = a })).holds,
)
