-- ===== src/Alerts/Run/Usage/Capacity.antt =====
-- `evalBucketCapacity` of internal/alerts as a whole.
use mathlib.Core.List.{Memᴰ}
use osspilot_ops_api.Common.{
  ℕ, eqb, ◌≡◌, refl, sym, ap, ◌∙◌, Bool, true, false, Option, none, some, List, [], ◌∷◌, any, map,
  All, arith, inl, inr, Bool-cases, ◌==◌,
}
use osspilot_ops_api.Common.Int.{ℤ, is_positive}
use osspilot_ops_api.Action.{Result, ok, err}
use osspilot_ops_api.Action.Keeps.{Keeps, Returns, Keeps-if_of, Keeps-bind, Keeps-pure}
use osspilot_ops_api.Action.Triple.{
  Triple, Triple-bind, Triple-frame_bind, Triple-keep, Triple-from, Triple-true, Post-ok,
}
use osspilot_ops_api.Database.{DbError}
use osspilot_ops_api.Database.Keeps.{OnTables, Keeps-query, Returns-query}
use osspilot_ops_api.Schema.{Tables}
use osspilot_ops_api.Schema.Tenants.{BucketRow}
use osspilot_ops_api.Schema.Alerts.{AlertRow, EventRow}
use osspilot_ops_api.Buckets.{usage_of}
use osspilot_ops_api.Buckets.Rows.{Bucket, scan_bucket, order_by_name, list_buckets}
use osspilot_ops_api.Buckets.Rows.Order.{map-All, map-Mem, order_by_name-All, order_by_name-Mem}
use osspilot_ops_api.Project.Usage.{UsageBucket}
use osspilot_ops_api.Project.World.{World}
use osspilot_ops_api.Project.World.Keeps.{OnDb, Keeps-on_db, Returns-on_db}
use osspilot_ops_api.Alerts.Events.{is_open_for}
use osspilot_ops_api.Alerts.Keeps.{OnEvents}
use osspilot_ops_api.Alerts.Evaluate.{
  Evaluator, is_seen, resolve_and_project, resolve_each, resolve_unseen,
}
use osspilot_ops_api.Alerts.Sending.{AreHeld, list_open_by_rule-Keeps}
use osspilot_ops_api.Alerts.Firing.Subjects.{Anything, Open, to_Anything, resolve_and_project-other}
use osspilot_ops_api.Alerts.Run.{Sources, Counts, resolve_rest}
use osspilot_ops_api.Alerts.Run.Numbers.{reaches, usage_percent}
use osspilot_ops_api.Alerts.Run.Usage.{
  measured, capacity_each, capacity_threshold, eval_bucket_capacity,
}
use osspilot_ops_api.Alerts.Run.Usage.Reflects.{capacity_each-Judged}

-- An id that was seen is none that was not.
unseen_other :
    (id other : ℕ) (seen : List ℕ)
    → any (eqb id) seen ≡ true
    → any (eqb other) seen ≡ false
    → eqb other id ≡ false
unseen_other id other seen h k = elim (Bool-cases (eqb other id)) [
  | inl same ↦
      let e : other ≡ id = ground (arith, same) in
      let found : any (eqb other) seen ≡ true = rw e h in cc
  | inr apart ↦ apart
]

module _ {R : Type 0} (e : Evaluator R) (rule : AlertRow) (id : ℕ) (v : Bool) (seen : List ℕ)
    (is_own : any (eqb id) seen ≡ true) where
  abbrev Kept : World R → Type 0
  Kept = AreHeld (Open rule.id id v)

  unseen-Kept :
      (tenant_id bucket_id : Option ℕ)
      → is_seen e seen (λ ev. ev.bucket_id) bucket_id ≡ false
      → Keeps Kept (resolve_and_project e rule tenant_id bucket_id)
  unseen-Kept tenant_id none k = cc
  unseen-Kept tenant_id (some other) k =
      resolve_and_project-other e rule id v rule tenant_id other
        (unseen_other id other seen is_own k)

  resolve_each-Kept :
      (evs : List EventRow) → Keeps Kept (resolve_each e seen (λ ev. ev.bucket_id) rule evs)
  unfolding resolve_each
  resolve_each-Kept [] = Keeps-pure 0
  resolve_each-Kept (ev ∷ evs) =
      let rest : Keeps Kept (resolve_each e seen (λ x. x.bucket_id) rule evs) =
        resolve_each-Kept evs in
      Keeps-if_of _ _ _ (λ known. rest)
        λ k.
          Keeps-bind _ _ (unseen-Kept ev.tenant_id ev.bucket_id k)
            λ r. Keeps-bind _ _ rest λ n. Keeps-pure _

  resolve_unseen-Kept : Keeps Kept (resolve_unseen e seen (λ ev. ev.bucket_id) rule)
  unfolding resolve_unseen
  resolve_unseen-Kept =
      Keeps-bind _ _ (Keeps-on_db _ (list_open_by_rule-Keeps (Open rule.id id v) rule.id))
        resolve_each-Kept

abbrev or_no_rows : Result DbError (List Bucket) → List Bucket
or_no_rows (ok rows) = rows
or_no_rows (err e) = []

module _ {R W : Type 0} (s : Sources R W) (rule : AlertRow) (usage : List UsageBucket) where
  abbrev pub At : Tables → World R → Type 0
  At t = OnDb (OnTables (λ u. u ≡ t))

  abbrev pub rows_of : Tables → List Bucket
  rows_of t = order_by_name s.collate (map (scan_bucket t) t.tenants.buckets)

  pub list_buckets-At : (t : Tables) → Keeps (OnTables (λ u. u ≡ t)) (list_buckets s.collate)
  unfolding list_buckets
  list_buckets-At t = Keeps-query _

  pub list_buckets-Rows :
      (t : Tables)
      → Returns (OnTables (λ u. u ≡ t)) (λ rows. rows ≡ rows_of t) (list_buckets s.collate)
  unfolding list_buckets
  list_buckets-Rows t = Returns-query _ (λ u e rows k. sym (ap or_no_rows k) ∙ ap rows_of e)

  module _ (t : Tables) (row : BucketRow) (used : ℤ) (percent : W)
      (known : measured s rule usage (capacity_threshold s rule usage) (scan_bucket t row)
        ≡ some (used, percent))
      (stored : Memᴰ row t.tenants.buckets)
      (unique : All (λ (r : BucketRow). r.id ≡ row.id → r ≡ row) t.tenants.buckets) where
    abbrev End : World R → Type 0
    End = AreHeld (Open rule.id row.id (reaches s.double percent (capacity_threshold s rule usage)))

    resolve_rest-End :
        (outcome : List ℕ × Counts)
        → Triple
            (λ w. (any (eqb row.id) outcome.0 ≡ true) × End w)
            (resolve_rest s rule (λ ev. ev.bucket_id) outcome)
            (λ _. End)
            (AreHeld Anything)
    resolve_rest-End outcome = record {
      at = λ w h.
          (Triple-keep _
              (Keeps-bind _ _ (resolve_unseen-Kept s.evaluator rule row.id _ outcome.0 h.0)
                (λ n. Keeps-pure _))
              (to_Anything s.evaluator rule row.id _)).at
            w h.1;
    }

    scanned_same :
        (rs : List BucketRow)
        → All (λ (r : BucketRow). r.id ≡ row.id → r ≡ row) rs
        → All
            (λ (r : BucketRow).
              (scan_bucket t r).row.id ≡ (scan_bucket t row).row.id
              → scan_bucket t r ≡ scan_bucket t row)
            rs
    unfolding scan_bucket
    scanned_same [] h = tt
    scanned_same (r ∷ rs) h = (λ e. ap (scan_bucket t) (h.0 e), scanned_same rs h.1)

    begin : (w : World R) → At t w → AreHeld Anything w
    unfolding OnEvents
    begin w h = record { holds = record { holds = tt } }

    judged :
        Triple
          (AreHeld Anything)
          (capacity_each s rule usage (capacity_threshold s rule usage) (rows_of t))
          (λ outcome w. (any (eqb row.id) outcome.0 ≡ true) × End w)
          (AreHeld Anything)
    unfolding scan_bucket
    judged =
        capacity_each-Judged s rule usage (capacity_threshold s rule usage) (scan_bucket t row) used
          percent known (rows_of t)
          (order_by_name-All s.collate _ _
            (map-All (scan_bucket t) _ t.tenants.buckets (scanned_same t.tenants.buckets unique)))
          (order_by_name-Mem s.collate _ _ (map-Mem (scan_bucket t) row t.tenants.buckets stored))

    eval_bucket_capacity-End :
        s.buckets ≡ true
        → Triple (At t) (eval_bucket_capacity s rule usage) (λ _. End) (AreHeld Anything)
    unfolding eval_bucket_capacity
    eval_bucket_capacity-End e = Triple-true _ s.buckets e (
        Triple-frame_bind (λ rows. rows ≡ rows_of t) _ _ (Keeps-on_db _ (list_buckets-At t))
          (Returns-on_db _ (list_buckets-Rows t)) begin
          λ rows same.
            Triple-bind (λ outcome w. (any (eqb row.id) outcome.0 ≡ true) × End w) _ _
              (Triple-from begin (rw same judged)) resolve_rest-End)

  known_bucket :
      (t : Tables) (row : BucketRow) (u : UsageBucket) (quota : ℤ) (threshold : W)
      → (row.status == "active") ≡ true
      → usage_of usage row.bucket_name ≡ some u
      → row.quota_bytes ≡ some quota
      → is_positive quota ≡ true
      → measured s rule usage threshold (scan_bucket t row)
        ≡ some (u.used_bytes, s.double.div (s.double.of_int u.used_bytes) (s.double.of_int quota))
  unfolding measured scan_bucket usage_percent
  known_bucket t row u quota threshold active found limited positive =
      rw active (rw found (rw limited (rw positive refl)))

  -- Where the evaluation of a rule on the capacity of buckets ends without an error, every active bucket
  -- with a positive quota, of which the usage is known and whose id no other bucket has, has an open
  -- event of the rule (and of no tenant) just if the part of its quota that it uses reaches the
  -- threshold of the rule, up to 1e-12, whatever was open before, whatever the channels and the tenant
  -- API answer, and whatever faults occur that do not stop the evaluation.
  pub eval_bucket_capacity_effect :
      (w : World R) (row : BucketRow) (u : UsageBucket) (quota : ℤ) (counts : Counts)
      → s.buckets ≡ true
      → Memᴰ row w.db.tables.tenants.buckets
      → All (λ (r : BucketRow). r.id ≡ row.id → r ≡ row) w.db.tables.tenants.buckets
      → (row.status == "active") ≡ true
      → usage_of usage row.bucket_name ≡ some u
      → row.quota_bytes ≡ some quota
      → is_positive quota ≡ true
      → (eval_bucket_capacity s rule usage w).0 ≡ ok counts
      → any
          (is_open_for rule.id none (some row.id))
          (eval_bucket_capacity s rule usage w).1.db.tables.alerts.events
        ≡ s.double.le (capacity_threshold s rule usage) (
            s.double.add
              (s.double.div (s.double.of_int u.used_bytes) (s.double.of_int quota))
              (s.double.decimal 1 12))
  unfolding Open OnEvents
  eval_bucket_capacity_effect w row u quota counts on stored unique active found limited positive
        e =
      let t : Tables = w.db.tables in
      let percent : W = s.double.div (s.double.of_int u.used_bytes) (s.double.of_int quota) in
      let known =
        known_bucket t row u quota (capacity_threshold s rule usage) active found limited
          positive in
      let run = eval_bucket_capacity-End t row u.used_bytes percent known stored unique on in
      let end =
        Post-ok (λ _. End t row u.used_bytes percent known stored unique) (AreHeld Anything)
          (eval_bucket_capacity s rule usage w) counts
          (run.at w (record { holds = record { holds = refl } })) e in
      end.holds.holds
