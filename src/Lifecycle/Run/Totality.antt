-- ===== src/Lifecycle/Run/Totality.antt =====
-- The runs of the worker end.
use osspilot_ops_api.Common.{
  ℕ, ◌+◌, ◌*◌, ◌≤◌, ◌<◌, String, ◌≡◌, refl, Bool, Option, none, some, List, [], ◌∷◌, length, arith,
}
use osspilot_ops_api.Action.{ok}
use osspilot_ops_api.Lifecycle.Rules.{Rule, positive_days}
use osspilot_ops_api.Lifecycle.Runner.{
  Client, Outcome, live_only, any_key, join_prefix, max_deletes_per_action,
}
use osspilot_ops_api.Lifecycle.Runner.Ending.{
  ObjectsAdvance, UploadsAdvance, delete_pages_ends, abort_pages_ends,
}
use osspilot_ops_api.Lifecycle.Run.{Totals, act, delete_prefix, abort_uploads, run_rule, run_rules}

-- Every listing of the client advances, and `fuel` is above the ranks that the loops start with.
pub record Advancing {W : Type 0} (s3 : Client W) (fuel : ℕ) : Type 0 where
  pub object_rank : String → String → String → ℕ
  pub upload_rank : String → String → String → String → ℕ
  pub objects :
      (bucket prefix : String) → ObjectsAdvance s3 bucket prefix (object_rank bucket prefix)
  pub uploads :
      (bucket prefix : String) → UploadsAdvance s3 bucket prefix (upload_rank bucket prefix)
  pub object_fuel : (bucket prefix : String) → object_rank bucket prefix "" < fuel
  pub upload_fuel : (bucket prefix : String) → upload_rank bucket prefix "" "" < fuel

-- Each sum grew by at most `limit`.
pub Within : ℕ → Totals → Totals → Type 0
Within limit a b =
    (b.objects ≤ a.objects + limit)
    × (b.trash ≤ a.trash + limit)
    × (b.versions ≤ a.versions + limit)
    × (b.multipart ≤ a.multipart + limit)

module _ {W : Type 0} (s3 : Client W) (now : ℕ) (fuel : ℕ) (advancing : Advancing s3 fuel) where
  act_ends :
      (days : Option ℕ) (f : ℕ → W → Option Outcome × W)
      → ((d : ℕ) (w : W)
          → (o : Outcome) × ((f d w).0 ≡ some o)
            × (0 ≤ o.count)
            × (o.count ≤ max_deletes_per_action))
      → (w : W) → (n : ℕ) × ((act days f w).0 ≡ ok n) × (n ≤ max_deletes_per_action)
  unfolding act
  act_ends none f ends w = (0, refl, omega arith)
  act_ends (some d) f ends w = let (o, e, low, high) = ends d w in (o.count, ground arith, high)

  delete_ends :
      (bucket prefix : String) (keep : String → Bool) (d : ℕ) (w : W)
      → (o : Outcome) × ((delete_prefix s3 now fuel bucket prefix keep d w).0 ≡ some o)
        × (0 ≤ o.count)
        × (o.count ≤ max_deletes_per_action)
  delete_ends bucket prefix keep d w =
      delete_pages_ends s3 now bucket d keep prefix (advancing.object_rank bucket prefix)
        (advancing.objects bucket prefix) fuel "" 0 w (advancing.object_fuel bucket prefix)
        (omega arith)

  abort_ends :
      (bucket prefix : String) (d : ℕ) (w : W)
      → (o : Outcome) × ((abort_uploads s3 now fuel bucket prefix d w).0 ≡ some o)
        × (0 ≤ o.count)
        × (o.count ≤ max_deletes_per_action)
  abort_ends bucket prefix d w =
      abort_pages_ends s3 now bucket d prefix (advancing.upload_rank bucket prefix)
        (advancing.uploads bucket prefix) fuel "" "" 0 w (advancing.upload_fuel bucket prefix)
        (omega arith)

  run_rule_ends :
      (rule : Rule) (t : Totals) (w : W)
      → (t' : Totals) × ((run_rule s3 now fuel rule t w).0 ≡ ok t')
        × Within max_deletes_per_action t t'
  unfolding run_rule Within
  run_rule_ends rule t w =
      let first =
        act (positive_days rule.delete_after_days)
          (delete_prefix s3 now fuel rule.bucket_name rule.prefix live_only) in
      let second =
        act (positive_days rule.cleanup_trash_after_days) (
          delete_prefix s3 now fuel rule.bucket_name (join_prefix ".trash/" rule.prefix) any_key) in
      let third = act (positive_days rule.cleanup_versions_after_days) (
        delete_prefix s3 now fuel rule.bucket_name (join_prefix ".versions/" rule.prefix)
          any_key) in
      let (a, ea, la) =
        act_ends (positive_days rule.delete_after_days)
          (delete_prefix s3 now fuel rule.bucket_name rule.prefix live_only)
          (delete_ends rule.bucket_name rule.prefix live_only) w in
      let w1 = (first w).1 in
      let (b, eb, lb) =
        act_ends (positive_days rule.cleanup_trash_after_days)
          (delete_prefix s3 now fuel rule.bucket_name (join_prefix ".trash/" rule.prefix) any_key)
          (delete_ends rule.bucket_name (join_prefix ".trash/" rule.prefix) any_key) w1 in
      let w2 = (second w1).1 in
      let (c, ec, lc) =
        act_ends (positive_days rule.cleanup_versions_after_days)
          (delete_prefix s3 now fuel rule.bucket_name (join_prefix ".versions/" rule.prefix)
            any_key)
          (delete_ends rule.bucket_name (join_prefix ".versions/" rule.prefix) any_key) w2 in
      let w3 = (third w2).1 in
      let (d, ed, ld) =
        act_ends (positive_days rule.cleanup_multipart_after_days)
          (abort_uploads s3 now fuel rule.bucket_name rule.prefix)
          (abort_ends rule.bucket_name rule.prefix) w3 in
      (
        record {
          objects = t.objects + a;
          trash = t.trash + b;
          versions = t.versions + c;
          multipart = t.multipart + d;
        },
        ground (arith, ea, eb, ec, ed),
        (omega (arith, la), omega (arith, lb), omega (arith, lc), omega (arith, ld)),
      )

  -- Where every truncated listing advances and the fuel covers the first pages, `Run` ends for
  -- every list of rules, whatever fails, and each of its four sums is at most 2000 a rule.
  pub run_rules_ends :
      (rules : List Rule) (t : Totals) (w : W)
      → (t' : Totals) × ((run_rules s3 now fuel rules t w).0 ≡ ok t')
        × Within (length rules * max_deletes_per_action) t t'
  unfolding run_rules Within
  run_rules_ends [] t w = (t, refl, ground arith)
  run_rules_ends (rule ∷ rules) t w =
      let (t1, e1, within1) = run_rule_ends rule t w in
      let (t2, e2, within2) = run_rules_ends rules t1 (run_rule s3 now fuel rule t w).1 in
      (t2, ground (arith, e1, e2), ground (arith, within1, within2))
