-- ===== src/Lifecycle/Run.antt =====
-- internal/lifecycle/runner.go: `Run`, over the rules that `ListEnabled` returned.
pub mod Totality
mod Tests
use osspilot_ops_api.Common.{ℕ, ◌+◌, String, Bool, true, Option, none, some, List, [], ◌∷◌}
use osspilot_ops_api.Common.Int.{ℤ}
use osspilot_ops_api.Action.{Result, ok, err, Action, ◌>>=◌, pure}
use osspilot_ops_api.Lifecycle.Rules.{Rule, positive_days}
use osspilot_ops_api.Lifecycle.Runner.{
  Client, Outcome, live_only, any_key, join_prefix, delete_pages, abort_pages,
}

-- The sums that `Run` logs
pub record Totals : Type 0 where
  pub objects : ℕ
  pub trash : ℕ
  pub versions : ℕ
  pub multipart : ℕ

abbrev pub no_totals : Totals
no_totals = record { objects = 0; trash = 0; versions = 0; multipart = 0 }

module _ {W : Type 0} where
  -- The count of an action, whose error is only logged. `err` is a loop without end.
  abbrev pub counted : Option Outcome × W → Result Unit ℕ × W
  counted (none, w) = (err tt, w)
  counted (some o, w) = (ok o.count, w)

  -- `if days != nil && *days > 0 { … }`
  unfoldable pub act : Option ℕ → (ℕ → W → Option Outcome × W) → Action W Unit ℕ
  act none f w = (ok 0, w)
  act (some days) f w = counted (f days w)

module _ {W : Type 0} (s3 : Client W) (now : ℕ) (fuel : ℕ) where
  -- `deletePrefix` and `abortMultipart` from their first page
  abbrev pub delete_prefix : String → String → (String → Bool) → ℕ → W → Option Outcome × W
  delete_prefix bucket prefix keep days w = delete_pages s3 now bucket days keep fuel prefix "" 0 w

  abbrev pub abort_uploads : String → String → ℕ → W → Option Outcome × W
  abort_uploads bucket prefix days w = abort_pages s3 now bucket days fuel prefix "" "" 0 w

  -- One round of the loop of `Run`
  unfoldable pub run_rule : Rule → Totals → Action W Unit Totals
  unfolding act
  run_rule rule t = do
    objects ←
        act (positive_days rule.delete_after_days)
          (delete_prefix rule.bucket_name rule.prefix live_only)
    trash ←
        act (positive_days rule.cleanup_trash_after_days)
          (delete_prefix rule.bucket_name (join_prefix ".trash/" rule.prefix) any_key)
    versions ←
        act (positive_days rule.cleanup_versions_after_days)
          (delete_prefix rule.bucket_name (join_prefix ".versions/" rule.prefix) any_key)
    multipart ←
        act (positive_days rule.cleanup_multipart_after_days)
          (abort_uploads rule.bucket_name rule.prefix)
    pure (record {
      objects = t.objects + objects;
      trash = t.trash + trash;
      versions = t.versions + versions;
      multipart = t.multipart + multipart;
    })

  unfoldable pub run_rules : List Rule → Totals → Action W Unit Totals
  unfolding run_rule
  run_rules [] t = pure t
  run_rules (rule ∷ rules) t = do t' ← run_rule rule t; run_rules rules t'
