-- ===== src/Alerts/Run/Usage/Quiet.antt =====
-- `evalBucketCapacity` of internal/alerts, and the buckets that it passes over.
use osspilot_ops_api.Common.{
  ℕ, eqb, ◌≡◌, refl, ◌⊎◌, Bool, true, false, not, Option, none, some, List, [], ◌∷◌, any, All,
  arith, inl, inr, Bool-cases, Option-cases, ◌==◌,
}
use osspilot_ops_api.Common.Int.{ℤ, is_positive}
use osspilot_ops_api.Action.{ok, Action}
use osspilot_ops_api.Action.Keeps.{Returns, Returns-bind, Returns-bind_any, Returns-pure}
use osspilot_ops_api.Action.Triple.{
  Triple, Triple-bind, Triple-frame_bind, Triple-from, Triple-pure, Triple-true, Triple-weaken,
  Post-ok,
}
use osspilot_ops_api.Database.{DbError}
use osspilot_ops_api.Schema.{Tables}
use osspilot_ops_api.Schema.Tenants.{BucketRow}
use osspilot_ops_api.Schema.Alerts.{AlertRow}
use osspilot_ops_api.Buckets.{usage_of}
use osspilot_ops_api.Buckets.Rows.{Bucket, scan_bucket}
use osspilot_ops_api.Buckets.Rows.Order.{map-All, order_by_name-All}
use osspilot_ops_api.Project.Usage.{UsageBucket}
use osspilot_ops_api.Project.World.{World}
use osspilot_ops_api.Project.World.Keeps.{Keeps-on_db, Returns-on_db}
use osspilot_ops_api.Alerts.Events.{is_open_for}
use osspilot_ops_api.Alerts.Keeps.{OnEvents}
use osspilot_ops_api.Alerts.Sending.{AreHeld}
use osspilot_ops_api.Alerts.Firing.Subjects.{Open}
use osspilot_ops_api.Alerts.Firing.Unseen.{resolve_unseen-Closed}
use osspilot_ops_api.Alerts.Run.{Sources, Counts, resolve_rest}
use osspilot_ops_api.Alerts.Run.Numbers.{usage_percent}
use osspilot_ops_api.Alerts.Run.Usage.{
  measured, see_bucket, capacity_each, capacity_threshold, eval_bucket_capacity,
}
use osspilot_ops_api.Alerts.Run.Usage.Capacity.{At, rows_of, list_buckets-At, list_buckets-Rows}

-- A quota that is none, or not positive
abbrev pub is_unlimited : Option ℤ → Bool
is_unlimited none = true
is_unlimited (some quota) = not (is_positive quota)

-- Why a bucket does not count
pub record PassedOver (usage : List UsageBucket) (row : BucketRow) : Type 0 where
  pub why :
      ((row.status == "active") ≡ false)
      ⊎ ((usage_of usage row.bucket_name ≡ none) ⊎ (is_unlimited row.quota_bytes ≡ true))

module _ {R W : Type 0} (s : Sources R W) (rule : AlertRow) (usage : List UsageBucket) where
  abbrev threshold : W
  threshold = capacity_threshold s rule usage

  no_percent :
      (used : ℤ) (quota : Option ℤ)
      → is_unlimited quota ≡ true
      → usage_percent s.double used quota ≡ none
  unfolding usage_percent
  no_percent used none h = refl
  no_percent used (some n) h = let flat : is_positive n ≡ false = ground (arith, h) in rw flat refl

  not_measured :
      (t : Tables) (row : BucketRow)
      → PassedOver usage row
      → measured s rule usage threshold (scan_bucket t row) ≡ none
  unfolding measured scan_bucket
  not_measured t row h = elim (Bool-cases (row.status == "active")) [
    | inr inactive ↦ rw inactive refl
    | inl active ↦ rw active (elim h.why [
      | inl inactive ↦ cc
      | inr (inl unknown) ↦ rw unknown refl
      | inr (inr unlimited) ↦ elim (Option-cases (usage_of usage row.bucket_name)) [
        | inl unknown ↦ rw unknown refl
        | inr (u, found) ↦ rw found (rw (no_percent u.used_bytes row.quota_bytes unlimited) refl)
      ]
    ])
  ]

  abbrev Top : World R → Type 0
  Top w = Unit

  module _ (id : ℕ) where
    abbrev NotSeen : List ℕ × Counts → Type 0
    NotSeen outcome = any (eqb id) outcome.0 ≡ false

    apart :
        (b : Bucket) (found : ℤ × W) → (b.row.id ≡ id → some found ≡ none) → eqb id b.row.id ≡ false
    apart b found h = elim (Bool-cases (eqb id b.row.id)) [
      | inl own ↦ let same : b.row.id ≡ id = ground (arith, own) in let never = h same in cc
      | inr other ↦ other
    ]

    see-NotSeen :
        (b : Bucket) (found : Option (ℤ × W)) (rest : Action (World R) DbError (List ℕ × Counts))
        → (b.row.id ≡ id → found ≡ none)
        → Returns Top NotSeen rest
        → Returns Top NotSeen (see_bucket s rule usage threshold b found rest)
    see-NotSeen b none rest h later = later
    see-NotSeen b (some (used, percent)) rest h later =
        Returns-bind_any _ _ (record { at = λ w k. tt })
          λ here.
            Returns-bind NotSeen _ _ (record { at = λ w k. tt }) later
              λ others k. Returns-pure _ (ground (arith, k, apart b (used, percent) h))

    capacity_each-NotSeen :
        (bs : List Bucket)
        → All (λ (b : Bucket). b.row.id ≡ id → measured s rule usage threshold b ≡ none) bs
        → Returns Top NotSeen (capacity_each s rule usage threshold bs)
    unfolding capacity_each
    capacity_each-NotSeen [] h = Returns-pure _ refl
    capacity_each-NotSeen (b ∷ bs) h = see-NotSeen b _ _ h.0 (capacity_each-NotSeen bs h.1)

    module _ (t : Tables)
        (passed : All
          (λ (row : BucketRow). row.id ≡ id → PassedOver usage row)
          t.tenants.buckets) where
      abbrev Shut : World R → Type 0
      Shut = AreHeld (Open rule.id id false)

      scanned_none :
          (rows : List BucketRow)
          → All (λ (row : BucketRow). row.id ≡ id → PassedOver usage row) rows
          → All
              (λ (row : BucketRow).
                (scan_bucket t row).row.id ≡ id
                → measured s rule usage threshold (scan_bucket t row) ≡ none)
              rows
      unfolding scan_bucket
      scanned_none [] h = tt
      scanned_none (row ∷ rows) h = (λ e. not_measured t row (h.0 e), scanned_none rows h.1)

      loop-NotSeen :
          Returns Top NotSeen (capacity_each s rule usage threshold (rows_of s rule usage t))
      loop-NotSeen = capacity_each-NotSeen (rows_of s rule usage t) (
          order_by_name-All s.collate _ _
            (map-All (scan_bucket t) _ t.tenants.buckets (scanned_none t.tenants.buckets passed)))

      resolve_rest-Shut :
          (outcome : List ℕ × Counts)
          → NotSeen outcome
          → Triple Top (resolve_rest s rule (λ ev. ev.bucket_id) outcome) (λ _. Shut) Top
      unfolding OnEvents
      resolve_rest-Shut outcome h =
          Triple-bind (λ _. Shut) _ _
            (Triple-weaken
              (Triple-from (λ w k. record { holds = record { holds = tt } })
                (resolve_unseen-Closed s.evaluator rule id outcome.0 h))
              (λ _ w k. k) (λ w k. tt))
            λ n. Triple-pure _ (λ w k. k)

      eval_bucket_capacity-Shut :
          s.buckets ≡ true
          → Triple (At s rule usage t) (eval_bucket_capacity s rule usage) (λ _. Shut) Top
      unfolding eval_bucket_capacity
      eval_bucket_capacity-Shut on = Triple-true _ s.buckets on (
          Triple-frame_bind (λ rows. rows ≡ rows_of s rule usage t) _ _
            (Keeps-on_db _ (list_buckets-At s rule usage t))
            (Returns-on_db _ (list_buckets-Rows s rule usage t)) (λ w h. tt)
            λ rows same.
              Triple-from (λ w h. tt)
                (Triple-frame_bind NotSeen _ _ (record { at = λ w k. tt }) (rw same loop-NotSeen)
                  (λ w k. tt) resolve_rest-Shut))

  -- Where the evaluation of a rule on the capacity of buckets ends without an error, no event of the rule
  -- (and of no tenant) is open for an id whose buckets are all passed over: the bucket is not active, its
  -- usage is not known, or it has no positive quota. So where no usage is known at all, no such event of
  -- any bucket is open.
  pub eval_bucket_capacity_quiet :
      (w : World R) (id : ℕ) (counts : Counts)
      → s.buckets ≡ true
      → All (λ (row : BucketRow). row.id ≡ id → PassedOver usage row) w.db.tables.tenants.buckets
      → (eval_bucket_capacity s rule usage w).0 ≡ ok counts
      → any
          (is_open_for rule.id none (some id))
          (eval_bucket_capacity s rule usage w).1.db.tables.alerts.events
        ≡ false
  unfolding Open OnEvents
  eval_bucket_capacity_quiet w id counts on passed e =
      let t : Tables = w.db.tables in
      let run = eval_bucket_capacity-Shut id t passed on in
      let end =
        Post-ok (λ _. Shut id t passed) Top (eval_bucket_capacity s rule usage w) counts
          (run.at w (record { holds = record { holds = refl } })) e in
      end.holds.holds
