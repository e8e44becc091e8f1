-- ===== src/Buckets/Tests.antt =====
-- internal/buckets at a concrete import.
use osspilot_ops_api.Common.{◌≡◌, refl, true, none, some, List, [], ◌∷◌, map, ◌==◌, if◌then◌else◌}
use osspilot_ops_api.Common.Text.{
  trim_space, trim_left, trim_right, has_prefix, strip_prefix, contains,
}
use osspilot_ops_api.Action.{ok, err}
use osspilot_ops_api.Database.{exec, query}
use osspilot_ops_api.Http.{Response, json}
use osspilot_ops_api.Schema.{empty_tables}
use osspilot_ops_api.Schema.Tenants.{BucketRow}
use osspilot_ops_api.Auth.{Request}
use osspilot_ops_api.Audit.{insert_entry}
use osspilot_ops_api.Regions.Rows.{get_region}
use osspilot_ops_api.Project.{Call, enqueue_inventory, do_json, read_reply}
use osspilot_ops_api.Project.World.{World, on_db, on_remote}
use osspilot_ops_api.Rgw.{Sdk, new_client, head_bucket, head_error}
use osspilot_ops_api.Settings.{SettingsHandler, runtime, loaded}
use osspilot_ops_api.Settings.Rows.{load, pick, pick_value, value_at}
use osspilot_ops_api.Settings.Tests as Fixture
use osspilot_ops_api.Settings.Tests.{silent, fallbacks}
use osspilot_ops_api.Buckets.Rows.{
  Bucket, insert_bucket, insert_bucket_row, bucket_fits, get_bucket, scan_bucket, region_of,
}
use osspilot_ops_api.Buckets.Names.{
  validate_name, name_matches, tail_matches, is_alnum, is_name_char, bad_sequence,
}
use osspilot_ops_api.Buckets.Live.{BucketsHandler, live_s3}
use osspilot_ops_api.Buckets.Register.{
  register, open_register, check_region, after_head, after_insert, audit_register,
}
use osspilot_ops_api.Buckets.{ImportBuckets, BucketBody, outcomes, import_each, import_batch}
use osspilot_ops_api.Buckets.Register.Valid.{NamesValid}
use osspilot_ops_api.Buckets.Valid.{no_requests, then_import, Registers-NamesValid}
use osspilot_ops_api.Buckets.Valid.Counts.{SortedOut, import_batch-SortedOut}

-- An S3 store that has every bucket but `gone`
abbrev store : Sdk (List Call) Unit
store = record {
  head_bucket = λ c name calls. (if name == "gone" then err "NotFound" else ok tt, calls);
  list_buckets = λ c calls. (ok [], calls);
  get_policy = λ c name calls. (ok none, calls);
  put_policy = λ c name text calls. (ok tt, calls);
  delete_policy = λ c name calls. (ok tt, calls);
  list_objects = λ c name prefix most token calls. (err "", calls);
  delete_object = λ c name key calls. (ok tt, calls);
  list_uploads = λ c name prefix key upload calls. (err "", calls);
  abort_upload = λ c name key upload calls. (ok tt, calls);
  unmarshal = λ text. ok tt;
  marshal = λ p. ok "";
}

abbrev configured : SettingsHandler (List Call)
configured = record Fixture.handler {
  fallbacks = record fallbacks {
    s3_endpoint = "http://s3/";
    rgw_access_key = "a";
    rgw_secret_key = "s";
  };
}

abbrev handler : BucketsHandler (List Call) Unit
handler = record {
  store = true;
  regions = true;
  log = true;
  settings = some configured;
  project = none;
  net = silent;
  sdk = store;
  decode_job = λ s. none;
  decode_usage = λ s. none;
  collate = λ a b. true;
  equal_fold = λ a b. a == b;
}

abbrev request : Request ImportBuckets
request = record {
  path = "";
  authorization = "";
  path_value = λ name. "";
  body = some (record {
    bucket_names = " data-1 " ∷ "Bad" ∷ "gone" ∷ "data-1" ∷ [];
    storage_region_id = none;
  });
  origin = record { source_ip = none; user_agent = none };
  now = 50;
  salt = 0;
}

abbrev world : World (List Call)
world = record { db = record { tables = empty_tables; faults = [] }; remote = [] }

code : Unit {0}
unfolding import_batch import_each register open_register check_region after_head after_insert
    audit_register live_s3 runtime loaded load pick pick_value value_at new_client head_bucket
    head_error contains has_prefix strip_prefix insert_bucket insert_bucket_row bucket_fits
    get_bucket scan_bucket region_of get_region validate_name name_matches tail_matches is_alnum
    is_name_char bad_sequence trim_space trim_left trim_right on_db on_remote exec query
    insert_entry enqueue_inventory do_json read_reply
code = tt

stored_names :
    map
      (λ (b : BucketRow). b.bucket_name)
      (import_batch handler request none world).1.db.tables.tenants.buckets
    ≡ "data-1" ∷ []
unfolding code
stored_names = refl

abbrev data_bucket : Bucket
data_bucket = record {
  row = record {
    id = 1;
    bucket_name = "data-1";
    display_name = none;
    storage_region_id = none;
    quota_bytes = none;
    object_limit = none;
    status = "active";
    created_at = 50;
    updated_at = 50;
  };
  storage_region = none;
}

abbrev sorted_names : Response BucketBody
sorted_names = json 200 (
    outcomes (data_bucket ∷ []) (
      ("Bad", "bucket_name must be 3-63 lowercase letters, numbers, dots, or hyphens")
      ∷ ("gone", "S3 bucket 'gone' not found")
      ∷ ("data-1", "bucket exists")
      ∷ []))

imported : (import_batch handler request none world).0 ≡ ok sorted_names
unfolding code
imported = refl

import_batch-SortedOut_example : SortedOut handler request none world sorted_names
import_batch-SortedOut_example =
    import_batch-SortedOut handler request none world sorted_names imported

Registers-NamesValid_example : NamesValid (import_batch handler request none world).1.db.tables
Registers-NamesValid_example =
    Registers-NamesValid (then_import handler request none world no_requests refl refl)
      (record { all = tt })
