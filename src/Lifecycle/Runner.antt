-- ===== src/Lifecycle/Runner.antt =====
-- internal/lifecycle/runner.go. The S3 client is a parameter: functions over a world `W` that the
-- program does not see. Times are in seconds.
pub mod Pages
pub mod Ending
pub mod Deletions
use osspilot_ops_api.Common.{
  ℕ, zero, suc, ◌+◌, ◌*◌, ltb, leb, String, Bool, true, false, not, ◌&&◌, ◌||◌, Option, none, some,
  List, [], ◌∷◌, ◌==◌, if◌then◌else◌,
}
use Prim.Native.String
use osspilot_ops_api.Common.Text.{trim_left, has_prefix}
use osspilot_ops_api.Lifecycle.Rules.{Rule, positive_days}

-- `rgw.ObjectInfo` and `rgw.MultipartInfo`
pub record ObjectInfo : Type 0 where
  pub key : String
  pub last_modified : Option ℕ

pub record MultipartInfo : Type 0 where
  pub key : String
  pub upload_id : String
  pub initiated : Option ℕ

-- One answer to a listing: the items, where to go on, and whether there is more.
pub record Page (I N : Type 0) : Type 0 where
  pub items : List I
  pub next : N
  pub truncated : Bool

-- `rgw.Client`: `none` and `false` are errors. The last function of each pair is the change.
pub record Client (W : Type 0) : Type 0 where
  pub list_objects : String → String → String → W → Option (Page ObjectInfo String) × W
  pub delete_object : String → String → W → Bool × W
  pub list_multipart :
      String → String → String → String → W → Option (Page MultipartInfo (String × String)) × W
  pub abort_multipart : String → String → String → W → Bool × W

abbrev pub max_deletes_per_action : ℕ
max_deletes_per_action = 2000

abbrev pub seconds_per_day : ℕ
seconds_per_day = 86400

-- `liveOnly`
unfoldable pub live_only : String → Bool
unfolding has_prefix
live_only key = not (has_prefix key ".trash/") && not (has_prefix key ".versions/")

-- `anyKey`
abbrev pub any_key : String → Bool
any_key key = true

-- `joinPrefix`
unfoldable pub join_prefix : String → String → String
unfolding trim_left
join_prefix base prefix =
    let rest =
      trim_left
        (λ c. elim (Prim.Native.Nat.compare c b'/') [
          | Prim.Native.Nat.Ordering.eq ↦ true
          | _ ↦ false
        ])
        prefix in
    if rest == "" then base else String.◌++◌ base rest

-- `t != nil && t.Before(cutoff)` where the cutoff is `days` days before `now`
unfoldable pub is_expired : ℕ → ℕ → Option ℕ → Bool
is_expired now days none = false
is_expired now days (some t) = ltb (t + days * seconds_per_day) now

-- How an action ends: the count, and whether it ended by an error; `none` is a loop without end.
pub record Outcome : Type 0 where
  pub count : ℕ
  pub failed : Bool

abbrev pub ended : ℕ → Bool → Option Outcome
ended n b = some (record { count = n; failed = b })

module _ {W : Type 0} (s3 : Client W) (now : ℕ) where
  module _ (bucket : String) (days : ℕ) (keep : String → Bool) where
    -- One round of the inner loop of `deletePrefix`
    unfoldable pub delete_one : ObjectInfo → ℕ → W → ℕ × W
    unfolding is_expired
    delete_one obj deleted w =
        if not (keep obj.key) || not (is_expired now days obj.last_modified)
        then (deleted, w)
        else (let (done, w') = s3.delete_object bucket obj.key w in
            (if done then deleted + 1 else deleted, w'))

    -- The inner loop of `deletePrefix`, which ends early at the limit.
    unfoldable pub delete_items : List ObjectInfo → ℕ → W → ℕ × W
    unfolding delete_one
    delete_items [] deleted w = (deleted, w)
    delete_items (obj ∷ items) deleted w =
        let rest = (let next = delete_one obj deleted w in delete_items items next.0 next.1) in
        if leb max_deletes_per_action deleted then (deleted, w) else rest

    -- The outer loop of `deletePrefix`, on fuel
    unfoldable pub delete_pages : ℕ → String → String → ℕ → W → Option Outcome × W
    unfolding delete_items
    delete_pages zero prefix token deleted w = (none, w)
    delete_pages (suc fuel) prefix token deleted w =
        let (answer, w') = s3.list_objects bucket prefix token w in
        let body : Option Outcome × W = elim answer [
          | none ↦ (ended deleted true, w')
          | some page ↦
              let after = delete_items page.items deleted w' in
              let rest = delete_pages fuel prefix page.next after.0 after.1 in
              if not page.truncated || page.next == "" || leb max_deletes_per_action after.0
              then (ended after.0 false, after.1)
              else rest
        ] in
        if ltb deleted max_deletes_per_action then body else (ended deleted false, w)

  module _ (bucket : String) (days : ℕ) where
    -- One round of the inner loop of `abortMultipart`
    unfoldable pub abort_one : MultipartInfo → ℕ → W → ℕ × W
    unfolding is_expired
    abort_one u aborted w =
        if not (is_expired now days u.initiated)
        then (aborted, w)
        else (let (done, w') = s3.abort_multipart bucket u.key u.upload_id w in
            (if done then aborted + 1 else aborted, w'))

    unfoldable pub abort_items : List MultipartInfo → ℕ → W → ℕ × W
    unfolding abort_one
    abort_items [] aborted w = (aborted, w)
    abort_items (u ∷ items) aborted w =
        let rest = (let next = abort_one u aborted w in abort_items items next.0 next.1) in
        if leb max_deletes_per_action aborted then (aborted, w) else rest

    -- The outer loop of `abortMultipart`, on fuel
    unfoldable pub abort_pages : ℕ → String → String → String → ℕ → W → Option Outcome × W
    unfolding abort_items
    abort_pages zero prefix key_marker upload_marker aborted w = (none, w)
    abort_pages (suc fuel) prefix key_marker upload_marker aborted w =
        let (answer, w') = s3.list_multipart bucket prefix key_marker upload_marker w in
        let body : Option Outcome × W = elim answer [
          | none ↦ (ended aborted true, w')
          | some page ↦
              let after = abort_items page.items aborted w' in
              let rest = abort_pages fuel prefix page.next.0 page.next.1 after.0 after.1 in
              if not page.truncated || leb max_deletes_per_action after.0
              then (ended after.0 false, after.1)
              else rest
        ] in
        if ltb aborted max_deletes_per_action then body else (ended aborted false, w)
