-- ===== src/Alerts/Run/Usage/Reflects.antt =====
-- `evalBucketCapacity` of internal/alerts: the open events of its rule and the usage of the buckets.
use osspilot_ops_api.Common.{
  ℕ, eqb, ◌≡◌, refl, sym, ap, ◌∙◌, Bool, true, false, Option, none, some, List, [], ◌∷◌, any, All,
  arith, inl, inr, Bool-cases,
}
use mathlib.Core.List.{Memᴰ}
use osspilot_ops_api.Common.Int.{ℤ}
use osspilot_ops_api.Action.{Action}
use osspilot_ops_api.Action.Keeps.{Keeps, Keeps-if, Keeps-bind, Keeps-pure}
use osspilot_ops_api.Action.Triple.{
  Triple, Triple-bind, Triple-keep, Triple-pure, Triple-from, Triple-if, Triple-weaken,
}
use osspilot_ops_api.Database.{DbError}
use osspilot_ops_api.Schema.Alerts.{AlertRow}
use osspilot_ops_api.Buckets.Rows.{Bucket}
use osspilot_ops_api.Project.Usage.{UsageBucket}
use osspilot_ops_api.Project.World.{World}
use osspilot_ops_api.Alerts.Sending.{AreHeld}
use osspilot_ops_api.Alerts.Firing.Subjects.{
  Anything, Open, to_Anything, resolve_and_project-Open, resolve_and_project-other,
}
use osspilot_ops_api.Alerts.Firing.Subjects.Fire.{fire-Open, fire-other}
use osspilot_ops_api.Alerts.Run.{Sources, Counts}
use osspilot_ops_api.Alerts.Run.Numbers.{reaches}
use osspilot_ops_api.Alerts.Run.Usage.{measured, judge_bucket, see_bucket, capacity_each}

abbrev part_or : {W : Type 0} → W → Option (ℤ × W) → W
part_or w none = w
part_or w (some (used, p)) = p

module _ {R W : Type 0} (s : Sources R W) (rule : AlertRow) (usage : List UsageBucket)
    (threshold : W) where
  judge_bucket-Open :
      (b : Bucket) (used : ℤ) (percent : W)
      → Triple
          (AreHeld Anything)
          (judge_bucket s rule usage threshold b used percent)
          (λ _. AreHeld (Open rule.id b.row.id (reaches s.double percent threshold)))
          (AreHeld Anything)
  unfolding judge_bucket
  judge_bucket-Open b used percent =
      Triple-if (λ v. AreHeld (Open rule.id b.row.id v)) (reaches s.double percent threshold) _ _
        (Triple-bind (λ _. AreHeld (Open rule.id b.row.id true)) _ _
          (fire-Open s.evaluator rule b.row.id (some b.row.bucket_name) _ _ _)
          λ created. Triple-pure _ (λ w k. k))
        (Triple-bind (λ _. AreHeld (Open rule.id b.row.id false)) _ _
          (resolve_and_project-Open s.evaluator rule b.row.id) λ n. Triple-pure _ (λ w k. k))

  module _ (id : ℕ) (v : Bool) where
    judge_bucket-other :
        (b : Bucket) (used : ℤ) (percent : W)
        → eqb b.row.id id ≡ false
        → Keeps (AreHeld (Open rule.id id v)) (judge_bucket s rule usage threshold b used percent)
    unfolding judge_bucket
    judge_bucket-other b used percent h =
        Keeps-if _ _ _
          (Keeps-bind _ _ (fire-other s.evaluator rule id v rule _ h _ _ _)
            (λ created. Keeps-pure _))
          (Keeps-bind _ _ (resolve_and_project-other s.evaluator rule id v rule none b.row.id h)
            (λ n. Keeps-pure _))

  -- A bucket of which the usage is known, and the part of its quota
  module _ (b : Bucket) (used : ℤ) (percent : W)
      (known : measured s rule usage threshold b ≡ some (used, percent)) where
    abbrev Reflected : World R → Type 0
    Reflected = AreHeld (Open rule.id b.row.id (reaches s.double percent threshold))

    -- No other bucket has its id.
    abbrev Same : Bucket → Type 0
    Same x = x.row.id ≡ b.row.id → x ≡ b

    out : (w : World R) → Reflected w → AreHeld Anything w
    out = to_Anything s.evaluator rule b.row.id (reaches s.double percent threshold)

    judge-Reflected :
        (x : Bucket) (u : ℤ) (p : W)
        → Same x
        → measured s rule usage threshold x ≡ some (u, p)
        → Triple Reflected
            (judge_bucket s rule usage threshold x u p)
            (λ _. Reflected)
            (AreHeld Anything)
    judge-Reflected x u p same k = elim (Bool-cases (eqb x.row.id b.row.id)) [
      | inl own ↦
          let same_id : x.row.id ≡ b.row.id = ground (arith, own) in
          let part : p ≡ percent =
            ap (part_or percent)
              (sym k ∙ (ap (measured s rule usage threshold) (same same_id) ∙ known)) in
          Triple-from out (
            Triple-weaken (judge_bucket-Open x u p) (λ _ w h. rw (sym same_id) (rw (sym part) h))
              (λ w h. h))
      | inr other ↦ Triple-keep _ (judge_bucket-other b.row.id _ x u p other) out
    ]

    see-Reflected :
        (x : Bucket) (found : Option (ℤ × W)) (rest : Action (World R) DbError (List ℕ × Counts))
        → Same x
        → measured s rule usage threshold x ≡ found
        → Triple Reflected rest (λ _. Reflected) (AreHeld Anything)
        → Triple Reflected
            (see_bucket s rule usage threshold x found rest)
            (λ _. Reflected)
            (AreHeld Anything)
    see-Reflected x none rest same k later = later
    see-Reflected x (some (u, p)) rest same k later =
        Triple-bind (λ _. Reflected) _ _ (judge-Reflected x u p same k)
          λ here. Triple-bind (λ _. Reflected) _ _ later λ others. Triple-pure _ (λ w h. h)

    capacity_each-Reflected :
        (xs : List Bucket)
        → All Same xs
        → Triple Reflected
            (capacity_each s rule usage threshold xs)
            (λ _. Reflected)
            (AreHeld Anything)
    unfolding capacity_each
    capacity_each-Reflected [] same = Triple-pure _ (λ w h. h)
    capacity_each-Reflected (x ∷ xs) (same, others) =
        see-Reflected x _ _ same refl (capacity_each-Reflected xs others)

    -- After the loop the bucket is one of those that were seen.
    abbrev pub Judged : List ℕ × Counts → World R → Type 0
    Judged outcome w = (any (eqb b.row.id) outcome.0 ≡ true) × Reflected w

    see-own :
        (rest : Action (World R) DbError (List ℕ × Counts))
        → Triple Reflected rest (λ _. Reflected) (AreHeld Anything)
        → Triple
            (AreHeld Anything)
            (see_bucket s rule usage threshold b (some (used, percent)) rest)
            Judged
            (AreHeld Anything)
    see-own rest later =
        Triple-bind (λ _. Reflected) _ _ (judge_bucket-Open b used percent)
          λ here.
            Triple-bind (λ _. Reflected) _ _ later
              λ others. Triple-pure _ (λ w h. (ground arith, h))

    see-later :
        (x : Bucket) (found : Option (ℤ × W)) (rest : Action (World R) DbError (List ℕ × Counts))
        → Triple (AreHeld Anything) rest Judged (AreHeld Anything)
        → Triple
            (AreHeld Anything)
            (see_bucket s rule usage threshold x found rest)
            Judged
            (AreHeld Anything)
    see-later x none rest later = later
    see-later x (some (u, p)) rest later =
        Triple-bind (λ _. AreHeld Anything) _ _
          (Triple-weaken (judge_bucket-Open x u p)
            (λ _ w h. to_Anything s.evaluator rule x.row.id _ w h) (λ w h. h))
          λ here.
            Triple-bind Judged _ _ later λ others. Triple-pure _ (λ w h. (ground (arith, h.0), h.1))

    pub capacity_each-Judged :
        (xs : List Bucket)
        → All Same xs
        → Memᴰ b xs
        → Triple
            (AreHeld Anything)
            (capacity_each s rule usage threshold xs)
            Judged
            (AreHeld Anything)
    unfolding capacity_each
    capacity_each-Judged [] same m = elim m [ ]
    capacity_each-Judged (x ∷ xs) (same, others) (Memᴰ.head e) =
        rw (sym e) (rw known (see-own _ (capacity_each-Reflected xs others)))
    capacity_each-Judged (x ∷ xs) (same, others) (Memᴰ.tail m) =
        see-later x _ _ (capacity_each-Judged xs others m)
