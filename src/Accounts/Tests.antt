-- ===== src/Accounts/Tests.antt =====
-- internal/accounts at a concrete request.
use osspilot_ops_api.Common.{ℕ, ◌≡◌, refl, true, false, none, some, List, [], ◌∷◌, length}
use osspilot_ops_api.Common.Int.{pos}
use osspilot_ops_api.Common.Decimal.{parse_id}
use osspilot_ops_api.Database.{exec, query}
use osspilot_ops_api.Schema.{Tables, empty_tables}
use osspilot_ops_api.Schema.Tenants.{AccountRow}
use osspilot_ops_api.Audit.Actor.{write_for}
use osspilot_ops_api.Auth.{Request}
use osspilot_ops_api.Project.{Network, Call, delete_account, do_call, do_json, read_reply}
use osspilot_ops_api.Project.World.{World, on_db, on_remote}
use osspilot_ops_api.Accounts.{AccountsHandler, remove, load, path_id, with_store}
use osspilot_ops_api.Accounts.Rows.{get_account, scan_account, remove_account, drop_account}

abbrev pub ada : AccountRow
ada = record {
  id = 1;
  username = "ada";
  password_hash = "h";
  display_name = none;
  email = none;
  phone = none;
  status = "active";
  quota_bytes = none;
  object_limit = none;
  daily_upload_bytes = none;
  bucket_limit = some (pos 1);
  storage_region_id = none;
  must_change_password = false;
  last_login_at = none;
  created_at = 1;
  updated_at = 1;
}

abbrev pub tables : Tables
tables = record empty_tables {
  tenants = record empty_tables.tenants { accounts = ada ∷ []; next_account_id = 2 };
}

-- A tenant API that keeps the calls and answers each with a status
abbrev pub answering : ℕ → Network (List Call)
answering status = record {
  exchange = λ call calls. (
    some (record { status = status; body = ""; excerpt = ""; capped = ""; content_type = "" }),
    call ∷ calls,
  );
  escape = λ s. s;
  query_escape = λ s. s;
  detail = λ s. none;
  status_text = λ n. "";
}

abbrev world : World (List Call)
world = record { db = record { tables = tables; faults = [] }; remote = [] }

abbrev handler : AccountsHandler
handler = record {
  store = true;
  regions = true;
  audit = true;
  project = some (record { base = "http://t"; secret = "s" });
}

abbrev request : Request Unit
request = record {
  path = "";
  authorization = "";
  path_value = λ name. "1";
  body = none;
  origin = record { source_ip = none; user_agent = none };
  now = 50;
  salt = 0;
}

code : Unit {0}
unfolding remove load path_id with_store get_account scan_account remove_account drop_account on_db
    on_remote exec query parse_id write_for delete_account do_call do_json read_reply
code = tt

abbrev after : ℕ → World (List Call)
after status = (remove (answering status) handler request none world).1

-- The tenant API agrees: the account is gone.
removed_account : length (after 200).db.tables.tenants.accounts ≡ 0
unfolding code
removed_account = refl

-- The tenant API refuses: the account stays.
refused_account : length (after 500).db.tables.tenants.accounts ≡ 1
unfolding code
refused_account = refl
