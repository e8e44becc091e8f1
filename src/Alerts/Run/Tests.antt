-- ===== src/Alerts/Run/Tests.antt =====
-- `Run` of internal/alerts over one rule on the capacity of buckets. The numbers count millionths of a
-- millionth.
use mathlib.Core.List.{Memᴰ}
use osspilot_ops_api.Common.{
  ℕ, leb, ◌+◌, ◌*◌, ◌/◌, ◌^◌, String, ◌≡◌, refl, Bool, true, false, Option, none, some, List, [],
  ◌∷◌, map, any, if◌then◌else◌, inl, inr,
}
use osspilot_ops_api.Common.Int.{ℤ, pos, negsuc}
use osspilot_ops_api.Common.Decimal.{format_ℕ}
use osspilot_ops_api.Common.Strings.{join}
use osspilot_ops_api.Common.Text.{trim_space}
use osspilot_ops_api.Action.{ok}
use osspilot_ops_api.Database.{exec, query}
use osspilot_ops_api.Schema.Tenants.{BucketRow}
use osspilot_ops_api.Schema.Alerts.{AlertRow, EventRow}
use osspilot_ops_api.Buckets.{usage_of}
use osspilot_ops_api.Buckets.Rows.{
  list_buckets, order_by_name, insert_by_name, scan_bucket, region_of,
}
use osspilot_ops_api.Project.{Reply, do_json, read_reply, detail_from_body}
use osspilot_ops_api.Project.Usage.{UsageBucket, get_usage}
use osspilot_ops_api.Project.World.{World, on_db, on_remote}
use osspilot_ops_api.Alerts.Tests.{rule, start, json}
use osspilot_ops_api.Alerts.Rows.{nz_json, list_enabled_alerts}
use osspilot_ops_api.Alerts.Events.{
  is_open_for, has_open_event, insert_event, insert_event_row, get_event, event_fits, event_refers,
  resolve_open, list_open_by_rule,
}
use osspilot_ops_api.Alerts.Dispatch.{dispatch, channel_ids}
use osspilot_ops_api.Alerts.Evaluate.{
  fire, fire_new, project_event, resolve_and_project, resolve_each, resolve_unseen,
}
use osspilot_ops_api.Alerts.Run.{Sources}
use osspilot_ops_api.Alerts.Run.Numbers.{Double, config_float, usage_percent}
use osspilot_ops_api.Alerts.Run.Usage.{eval_bucket_capacity, capacity_each, judge_bucket, measured}
use osspilot_ops_api.Alerts.Run.Usage.Capacity.{eval_bucket_capacity_effect}
use osspilot_ops_api.Alerts.Run.Usage.Quiet.{eval_bucket_capacity_quiet}
use osspilot_ops_api.Alerts.Run.Rules.{run, eval_rules, eval_rule, load_usage}

abbrev unit : ℕ
unit = 10 ^ 12

abbrev nat : ℤ → ℕ
nat (pos n) = n
nat (negsuc n) = 0

abbrev fixed : Double ℕ
fixed = record {
  of_int = λ n. nat n * unit;
  to_int = λ x. pos (x / unit);
  decimal = λ m e. m * unit / 10 ^ e;
  add = λ x y. x + y;
  mul = λ x y. x * y / unit;
  div = λ x y. x * unit / y;
  le = leb;
  round = λ x. (x + unit / 2) / unit * unit;
  parse = λ s. none;
  format = λ n x. format_ℕ (x / unit);
}

abbrev answer : Option Reply
answer = some (record { status = 200; body = "{}"; excerpt = ""; capped = ""; content_type = "" })

abbrev used_data : ℤ → UsageBucket
used_data n = record {
  bucket_name = "data-1";
  used_bytes = n;
  object_count = pos 1;
  collected_at = none;
}

-- The tenant API answers with a usage, or does not.
abbrev sources : Bool → ℤ → Sources ℕ ℕ
sources answers used = record {
  evaluator = record {
    net = record {
      exchange = λ call n. (if answers then answer else none, n + 1);
      escape = λ s. s;
      query_escape = λ s. s;
      detail = λ s. none;
      status_text = λ n. "";
    };
    poster = record {
      post = λ url body n. (ok 200, n + 1);
      decode_ids = λ s. none;
      with_notifications = λ s ds. none;
    };
    json = json;
    project = some (record { base = "http://tenant"; secret = "s" });
    stats = true;
    now = 60;
  };
  store = true;
  buckets = true;
  grants = true;
  settings = none;
  collate = λ a b. true;
  decode_usage = λ s. some (used_data used ∷ []);
  decode_window = λ s. none;
  ceph = λ url n. (ok (200, "{}"), n);
  codec = record { unmarshal = λ s. none; marshal = λ v. none };
  double = fixed;
  marshal = λ details. "{}";
}

abbrev capacity_rule : AlertRow
capacity_rule = record rule { name = "Capacity"; rule_type = "bucket_capacity_80" }

abbrev bucket : BucketRow
bucket = record {
  id = 5;
  bucket_name = "data-1";
  display_name = none;
  storage_region_id = none;
  quota_bytes = some (pos 100);
  object_limit = none;
  status = "active";
  created_at = 1;
  updated_at = 1;
}

abbrev world : World ℕ
world = record {
  db = record start {
    tables = record start.tables {
      tenants = record start.tables.tenants { buckets = bucket ∷ [] };
      alerts = record start.tables.alerts { alert_rules = capacity_rule ∷ []; events = [] };
    };
  };
  remote = 0;
}

code : Unit {0}
unfolding run eval_rules eval_rule load_usage eval_bucket_capacity capacity_each judge_bucket
    measured usage_percent config_float usage_of fire fire_new project_event resolve_and_project
    resolve_each resolve_unseen list_open_by_rule dispatch channel_ids nz_json has_open_event
    insert_event insert_event_row get_event event_fits event_refers resolve_open get_usage do_json
    read_reply detail_from_body trim_space list_buckets order_by_name insert_by_name scan_bucket
    region_of list_enabled_alerts on_db on_remote exec query join format_ℕ
code = tt

abbrev after : Bool → ℤ → World ℕ → World ℕ
after answers used w = (run (sources answers used) w).1

abbrev statuses : World ℕ → List String
statuses w = map (λ (e : EventRow). e.status) w.db.tables.alerts.events

below : statuses (after true (pos 79) world) ≡ []
unfolding code
below = refl

-- 80 of 100 reaches the threshold, once.
reached : statuses (after true (pos 81) (after true (pos 80) world)) ≡ "firing" ∷ []
unfolding code
reached = refl

counts_of :
    (run (sources true (pos 80)) world).0 ≡ ok (record { evaluated = 1; created = 1; resolved = 0 })
unfolding code
counts_of = refl

fallen : statuses (after true (pos 79) (after true (pos 80) world)) ≡ "resolved" ∷ []
unfolding code
fallen = refl

-- An evaluation that gets no usage from the tenant API resolves the event of a full bucket.
unknown : statuses (after false (pos 80) (after true (pos 80) world)) ≡ "resolved" ∷ []
unfolding code
unknown = refl

eval_bucket_capacity_effect_example :
    any
      (is_open_for 1 none (some 5))
      (eval_bucket_capacity
        (sources true (pos 80))
        capacity_rule
        (used_data (pos 80) ∷ [])
        world).1.db.tables.alerts.events
    ≡ true
unfolding code
eval_bucket_capacity_effect_example =
    eval_bucket_capacity_effect (sources true (pos 80)) capacity_rule (used_data (pos 80) ∷ [])
      world bucket (used_data (pos 80)) (pos 100) (1, 0) refl (Memᴰ.head refl) ((λ e. refl), tt)
      refl refl refl refl refl

abbrev full : World ℕ
full = after true (pos 80) world

-- The event of the full bucket is resolved where no usage is known.
eval_bucket_capacity_quiet_example :
    any
      (is_open_for 1 none (some 5))
      (eval_bucket_capacity (sources true (pos 80)) capacity_rule [] full).1.db.tables.alerts.events
    ≡ false
unfolding code
eval_bucket_capacity_quiet_example =
    eval_bucket_capacity_quiet (sources true (pos 80)) capacity_rule [] full 5 (0, 1) refl
      ((λ e. record { why = inr (inl refl) }), tt) refl
