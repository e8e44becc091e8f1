-- ===== src/TenantRbac/Tests.antt =====
-- internal/tenantrbac at concrete requests.
use osspilot_ops_api.Common.{◌≡◌, refl, true, none, some, List, [], ◌∷◌, map, ◌==◌, if◌then◌else◌}
use osspilot_ops_api.Common.Decimal.{parse_id, parse_int, parse_ℕ, format_ℕ}
use osspilot_ops_api.Common.Text.{trim_left, trim_right}
use osspilot_ops_api.Database.{exec, query}
use osspilot_ops_api.Auth.{Request}
use osspilot_ops_api.Audit.Actor.{write_for}
use osspilot_ops_api.Accounts.Rows.{get_account, scan_account}
use osspilot_ops_api.Accounts.Tests.{tables, answering}
use osspilot_ops_api.Project.{Call}
use osspilot_ops_api.Project.Reads.{do_raw}
use osspilot_ops_api.Project.World.{World, on_db, on_remote}
use osspilot_ops_api.TenantRbac.{
  RbacHandler, Proxied, target, load_target, answer_raw, proxy, trim_slashes,
}
use osspilot_ops_api.TenantRbac.Remap.{
  Json, number, array, object, no_more, element, end, field, has_key, without, set_key, rename,
  walk_remap, remap_account_id,
}
use osspilot_ops_api.TenantRbac.Clean.{Clean, walk_remap_lem}
use osspilot_ops_api.TenantRbac.Calls.{Confined, proxy-Confined}

-- {"items":[{"id":1,"tenant_id":9}]}
abbrev answer : Json
answer = object (
    field "items"
      (array
        (element (object (field "id" (number "1") (field "tenant_id" (number "9") end))) no_more))
      end)

renamed :
    walk_remap (number "42") answer
    ≡ object (
        field "items"
          (array (
            element
              (object (field "id" (number "1") (field "account_id" (number "42") end)))
              no_more))
          end)
unfolding walk_remap rename has_key without set_key
renamed = refl

walk_remap_lem_example :
    Clean (walk_remap (number "42") answer)
    × (Clean answer → walk_remap (number "42") answer ≡ answer)
    × (walk_remap (number "42") (walk_remap (number "42") answer) ≡ walk_remap (number "42") answer)
walk_remap_lem_example = walk_remap_lem "42" answer

abbrev handler : RbacHandler (List Call)
handler = record {
  accounts = true;
  log = true;
  project = some (record { base = "http://t"; secret = "s" });
  net = answering 200;
  codec = record { unmarshal = λ s. none; marshal = λ v. none };
}

abbrev request : Request Unit
request = record {
  path = "";
  authorization = "";
  path_value = λ name. if name == "user_id" then "1" else "/groups/3/";
  body = none;
  origin = record { source_ip = none; user_agent = none };
  now = 50;
  salt = 0;
}

abbrev posted : Proxied
posted = record { method = "POST"; raw_query = ""; body = "{}"; content_type = "application/json" }

abbrev world : World (List Call)
world = record { db = record { tables = tables; faults = [] }; remote = [] }

code : Unit {0}
unfolding proxy load_target target answer_raw trim_slashes trim_left trim_right parse_id parse_int
    parse_ℕ format_ℕ get_account scan_account on_db on_remote exec query write_for do_raw
    remap_account_id
code = tt

called :
    map (λ (c : Call). c.url) (proxy handler request posted none world).1.remote
    ≡ "http://t/internal/accounts/ada/rbac/groups/3" ∷ []
unfolding code
called = refl

proxy-Confined_example :
    Confined handler request posted none tables [] (proxy handler request posted none world).1
proxy-Confined_example = proxy-Confined handler request posted none tables [] world refl refl
