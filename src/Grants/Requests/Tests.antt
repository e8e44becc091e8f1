-- ===== src/Grants/Requests/Tests.antt =====
-- `replace` of internal/grants at a concrete request.
use osspilot_ops_api.Common.{
  ℕ, ◌+◌, Bool, String, ◌≡◌, refl, true, false, none, some, List, [], ◌∷◌, map,
}
use osspilot_ops_api.Common.Int.{pos}
use osspilot_ops_api.Common.Decimal.{parse_id}
use osspilot_ops_api.Action.Triple.{Post}
use osspilot_ops_api.Database.{exec, query, boundary, transaction}
use osspilot_ops_api.Schema.{Tables, empty_tables}
use osspilot_ops_api.Schema.Tenants.{AccountRow, BucketRow, GrantRow}
use osspilot_ops_api.Auth.{Request}
use osspilot_ops_api.Project.{Network, replace_buckets, do_call, do_json, read_reply}
use osspilot_ops_api.Project.World.{World, on_db, on_remote}
use osspilot_ops_api.Accounts.Rows.{get_account, scan_account}
use osspilot_ops_api.Buckets.Rows.{get_buckets, scan_bucket}
use osspilot_ops_api.Grants.{unique_ids, exceeds_limit}
use osspilot_ops_api.Grants.Rows.{
  list_grants, replace_grants, insert_grant_row, replace_body, insert_grants,
}
use osspilot_ops_api.Grants.Requests.{
  GrantsHandler, PutGrants, load_account, accept_grants, missing_ids, ordered_buckets,
  answer_grants, replace,
}
use osspilot_ops_api.Grants.Requests.Replace.{Done, Either, replace_effect}

abbrev ada : AccountRow
ada = record {
  id = 1;
  username = "ada";
  password_hash = "h";
  display_name = none;
  email = none;
  phone = none;
  status = "active";
  quota_bytes = none;
  object_limit = none;
  daily_upload_bytes = none;
  bucket_limit = some (pos 1);
  storage_region_id = none;
  must_change_password = false;
  last_login_at = none;
  created_at = 1;
  updated_at = 1;
}

abbrev data_bucket : BucketRow
data_bucket = record {
  id = 3;
  bucket_name = "data";
  display_name = none;
  storage_region_id = none;
  quota_bytes = none;
  object_limit = none;
  status = "active";
  created_at = 1;
  updated_at = 1;
}

abbrev tables : Tables
tables = record empty_tables {
  tenants = record empty_tables.tenants {
    accounts = ada ∷ [];
    next_account_id = 2;
    buckets = data_bucket ∷ [];
    next_bucket_id = 4;
  };
}

-- A tenant API that answers each call with a status and counts them
abbrev answering : ℕ → Network ℕ
answering status = record {
  exchange = λ call calls. (
    some (record { status = status; body = ""; excerpt = ""; capped = ""; content_type = "" }),
    calls + 1,
  );
  escape = λ s. s;
  query_escape = λ s. s;
  detail = λ s. none;
  status_text = λ n. "";
}

abbrev world : World ℕ
world = record { db = record { tables = tables; faults = [] }; remote = 0 }

abbrev handler : GrantsHandler
handler = record {
  store = true;
  accounts = true;
  project = some (record { base = "http://t"; secret = "s" });
}

abbrev request : Request PutGrants
request = record {
  path = "";
  authorization = "";
  path_value = λ name. "1";
  body = some (record { bucket_ids = pos 3 ∷ pos 3 ∷ [] });
  origin = record { source_ip = none; user_agent = none };
  now = 50;
  salt = 0;
}

abbrev first_come : String → String → Bool
first_come a b = true

code : Unit {0}
unfolding replace load_account accept_grants missing_ids ordered_buckets answer_grants get_account
    scan_account get_buckets scan_bucket unique_ids exceeds_limit list_grants replace_grants
    replace_body insert_grants insert_grant_row on_db on_remote exec query boundary transaction
    parse_id replace_buckets do_call do_json read_reply
code = tt

abbrev granted_buckets : ℕ → List ℕ
granted_buckets status =
    map (λ (g : GrantRow). g.bucket_id)
      (replace (answering status) first_come handler request world).1.db.tables.tenants.grants

granted_once : granted_buckets 200 ≡ 3 ∷ []
unfolding code
granted_once = refl

-- An error of the tenant API comes after the grants are stored.
granted_unsent : granted_buckets 500 ≡ 3 ∷ []
unfolding code
granted_unsent = refl

replace_effect_example :
    Post
      (λ _. Done (answering 200) first_come handler tables request)
      (Either (answering 200) first_come handler tables request)
      (replace (answering 200) first_come handler request world)
replace_effect_example = replace_effect (answering 200) first_come handler tables request world refl
