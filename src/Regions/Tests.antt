-- ===== src/Regions/Tests.antt =====
-- internal/regions at concrete requests.
use osspilot_ops_api.Common.{
  ℕ, String, ◌≡◌, refl, Bool, true, false, Option, none, some, [], ◌∷◌, ◌==◌, any, first, inl,
  if◌then◌else◌,
}
use osspilot_ops_api.Common.Text.{trim_space}
use osspilot_ops_api.Action.{err}
use osspilot_ops_api.Database.{exec, transaction}
use osspilot_ops_api.Http.{error, reply}
use osspilot_ops_api.Schema.{empty_tables, Store}
use osspilot_ops_api.Schema.Tenants.{AccountRow}
use osspilot_ops_api.Schema.Regions.{RegionRow}
use osspilot_ops_api.Auth.{Request}
use osspilot_ops_api.Regions.{
  RegionsHandler, CreateRegion, create, store_new, remove, is_missing, is_too_long, valid_status,
  or_default,
}
use osspilot_ops_api.Regions.Rows.{by_region, insert_region, region_fits}
use osspilot_ops_api.Regions.Codes.{create_conflict}
use osspilot_ops_api.Regions.Deletion.{remove_keeps}

abbrev region : ℕ → String → Bool → RegionRow
region id code is_default = record {
  id = id;
  code = code;
  name = "Region";
  s3_endpoint = "http://s3";
  s3_region_name = "us-east-1";
  is_default = is_default;
  status = "active";
  created_at = 1;
  updated_at = 1;
}

abbrev account : AccountRow
account = record {
  id = 1;
  username = "ann";
  password_hash = "h";
  display_name = none;
  email = none;
  phone = none;
  status = "active";
  quota_bytes = none;
  object_limit = none;
  daily_upload_bytes = none;
  bucket_limit = none;
  storage_region_id = some 2;
  must_change_password = false;
  last_login_at = none;
  created_at = 1;
  updated_at = 1;
}

abbrev regions : Store
regions = record {
  tables = record empty_tables {
    regions = record { rows = region 1 "eu" true ∷ region 2 "us" false ∷ []; next_region_id = 3 };
    tenants = record empty_tables.tenants { accounts = account ∷ []; next_account_id = 2 };
  };
  faults = [];
}

abbrev request : {Q : Type 0} → String → Option Q → Request Q
request id body = record {
  path = "/api/regions";
  authorization = "";
  path_value = λ name. id;
  body = body;
  origin = record { source_ip = none; user_agent = none };
  now = 50;
  salt = 0;
}

abbrev handler : RegionsHandler
handler = record { store = true; audit = true }

abbrev eu : CreateRegion
eu = record {
  code = " eu ";
  name = "Europe";
  s3_endpoint = "http://eu";
  s3_region_name = "";
  is_default = true;
  status = "";
}

-- Lower case on the letters `EU` only
abbrev lower : String → String
lower s = if s == "EU" then "eu" else s

refused :
    (create lower handler (request "" (some eu)) none regions).0
    ≡ err (reply (error 409 "Region code 'eu' already exists"))
unfolding create store_new insert_region trim_space or_default valid_status is_missing is_too_long
    region_fits transaction exec
refused = refl

create_conflict_example : any (λ x. x.code == "eu") regions.tables.regions.rows ≡ true
unfolding trim_space
create_conflict_example =
    create_conflict handler (request "" (some eu)) none regions lower eu
      "Region code 'eu' already exists" refl refused

remove_keeps_example :
    first
      (by_region 1)
      (remove {Q = Unit} handler (request "1" none) none regions).1.tables.regions.rows
    ≡ some (region 1 "eu" true)
remove_keeps_example =
    remove_keeps handler (request {Q = Unit} "1" none) none regions 1 (region 1 "eu" true) refl
      (inl refl)
