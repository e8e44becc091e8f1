-- ===== src/Lifecycle/Requests/Tests.antt =====
-- internal/lifecycle at concrete requests.
use osspilot_ops_api.Common.{◌≡◌, refl, true, Option, none, some, List, [], ◌∷◌}
use osspilot_ops_api.Common.Int.{ℤ, pos}
use osspilot_ops_api.Common.Decimal.{parse_id}
use osspilot_ops_api.Database.{exec, query}
use osspilot_ops_api.Schema.{empty_tables, Store}
use osspilot_ops_api.Schema.Tenants.{BucketRow, LifecycleRow}
use osspilot_ops_api.Audit.Actor.{write_for}
use osspilot_ops_api.Auth.{Request}
use osspilot_ops_api.Buckets.Rows.{get_bucket}
use osspilot_ops_api.Lifecycle.Rules.{valid_days, require_action}
use osspilot_ops_api.Lifecycle.Rows.{
  get_rule, insert_rule, insert_rule_row, update_rule, update_rule_row, rule_fits, join_rules,
}
use osspilot_ops_api.Lifecycle.Requests.{
  LifecycleHandler, CreateRule, UpdateRule, create_handler, update_handler, remove_handler, ready,
  path_id, load_rule, edit_rule, new_days, new_prefix, check_new,
}
use osspilot_ops_api.Lifecycle.Requests.Days.{AllRules, HasDays}
use osspilot_ops_api.Lifecycle.Requests.Updates.{
  HasAction, here, next, creates, updates, Reach-HasDays, stored_actions,
}

abbrev bucket : BucketRow
bucket = record {
  id = 1;
  bucket_name = "data";
  display_name = none;
  storage_region_id = none;
  quota_bytes = none;
  object_limit = none;
  status = "active";
  created_at = 1;
  updated_at = 1;
}

abbrev start : Store
start = record {
  tables = record empty_tables {
    tenants = record empty_tables.tenants { buckets = bucket ∷ []; next_bucket_id = 2 };
  };
  faults = [];
}

abbrev handler : LifecycleHandler
handler = record { store = true; buckets = true; audit = true }

abbrev request : {Q : Type 0} → Option Q → Request Q
request body = record {
  path = "";
  authorization = "";
  path_value = λ name. "1";
  body = body;
  origin = record { source_ip = none; user_agent = none };
  now = 50;
  salt = 0;
}

abbrev weekly : CreateRule
weekly = record {
  prefix = "logs/";
  enabled = none;
  delete_after_days = some (pos 7);
  cleanup_trash_after_days = none;
  cleanup_versions_after_days = none;
  cleanup_multipart_after_days = none;
}

-- The body `{"delete_after_days": null}`
abbrev no_action : UpdateRule
no_action = record {
  raw_keys = "delete_after_days" ∷ [];
  prefix = none;
  enabled = none;
  delete_after_days = none;
  cleanup_trash_after_days = none;
  cleanup_versions_after_days = none;
  cleanup_multipart_after_days = none;
}

code : Unit {0}
unfolding create_handler update_handler remove_handler ready valid_days require_action path_id
    load_rule edit_rule new_days new_prefix check_new get_bucket get_rule insert_rule
    insert_rule_row update_rule update_rule_row rule_fits join_rules write_for exec query parse_id
    AllRules
code = tt

abbrev created : Store
created = (create_handler handler (request (some weekly)) none start).1

abbrev updated : Store
updated = (update_handler handler (request (some no_action)) none created).1

abbrev deletions : List LifecycleRow → List (Option ℤ)
deletions [] = []
deletions (r ∷ rs) = r.delete_after_days ∷ deletions rs

created_rule : deletions created.tables.tenants.lifecycle_rules ≡ some (pos 7) ∷ []
unfolding code
created_rule = refl

-- `update` does not ask for an action: the rule is left with none.
updated_rule : deletions updated.tables.tenants.lifecycle_rules ≡ none ∷ []
unfolding code
updated_rule = refl

Reach-HasDays_example : AllRules HasDays updated.tables
unfolding AllRules
Reach-HasDays_example =
    Reach-HasDays handler {s = start} {t = updated}
      (next (next here (creates (request (some weekly)) none refl))
        (updates (request (some no_action)) none refl))
      tt

stored_actions_example :
    ((r : Request CreateRule) → AllRules HasAction (create_handler handler r none start).1.tables)
    × ((r : Request Unit) → AllRules HasAction (remove_handler handler r none start).1.tables)
unfolding AllRules
stored_actions_example = stored_actions handler none start tt
