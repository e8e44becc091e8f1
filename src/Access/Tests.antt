-- ===== src/Access/Tests.antt =====
-- internal/access at a concrete request.
use osspilot_ops_api.Common.{String, ◌≡◌, refl, true, none, some, List, [], ◌∷◌}
use osspilot_ops_api.Common.Int.{pos}
use osspilot_ops_api.Action.{ok}
use osspilot_ops_api.Database.{exec, query}
use osspilot_ops_api.Http.{Response, json}
use osspilot_ops_api.Accounts.Rows.{list_accounts, scan_account}
use osspilot_ops_api.Accounts.Tests.{tables, answering}
use osspilot_ops_api.Project.{Call, do_json, read_reply}
use osspilot_ops_api.Project.Reads.{AccessItem, list_access}
use osspilot_ops_api.Project.World.{World, on_db, on_remote}
use osspilot_ops_api.Access.{
  AccessHandler, AccessBody, access_items, by_name, bind_ops_ids, ready, list,
}
use osspilot_ops_api.Access.Binding.{Listed, list-Listed}

abbrev item : String → AccessItem
item name = record {
  id = pos 5;
  account_id = pos 77;
  account_name = name;
  status = "pending";
  requested_by = none;
  requested_at = "null";
  reviewed_by = none;
  reviewed_at = "null";
  review_note = none;
  rgw_uid = none;
  app_count = pos 0;
  key_count = pos 0;
}

-- The tenant API knows an account that the table does not have.
abbrev handler : AccessHandler (List Call)
handler = record {
  accounts = true;
  log = true;
  project = some (record { base = "http://t"; secret = "s" });
  net = answering 200;
  decode = record {
    items = λ body. some (some (item "ada" ∷ item "bob" ∷ []));
    item = λ body. some (item "ada");
  };
}

abbrev world : World (List Call)
world = record { db = record { tables = tables; faults = [] }; remote = [] }

code : Unit {0}
unfolding list ready by_name bind_ops_ids list_access list_accounts scan_account do_json read_reply
    on_db on_remote exec query
code = tt

abbrev bound_items : Response AccessBody
bound_items = json 200 (access_items (record (item "ada") { account_id = pos 1 } ∷ []) 1)

listed : (list handler "" world).0 ≡ ok bound_items
unfolding code
listed = refl

list-Listed_example : Listed tables.tenants.accounts bound_items
list-Listed_example = list-Listed handler tables "" world bound_items refl listed
