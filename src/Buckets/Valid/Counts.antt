-- ===== src/Buckets/Valid/Counts.antt =====
-- What an import of internal/buckets makes of the names of a request.
use osspilot_ops_api.Common.{
  ℕ, eqb, ltb, ◌+◌, ◌≤◌, String, ◌≡◌, refl, sym, ap, ◌∙◌, ◌⊎◌, inl, inr, true, not, ◌||◌, Option,
  none, some, List, [], ◌∷◌, length, arith,
}
use mathlib.Core.Path.{subst}
use osspilot_ops_api.Common.Int.{ℤ}
use osspilot_ops_api.Common.Text.{trim_space}
use osspilot_ops_api.Action.{Result, ok, err, pure, ◌>>=◌, Action, attempt}
use osspilot_ops_api.Action.Inversion.{guard_ok, require_ok, bind_ok}
use osspilot_ops_api.Http.{Handler, Response, json}
use osspilot_ops_api.Auth.{Request}
use osspilot_ops_api.Auth.Accounts.{User}
use osspilot_ops_api.Project.World.{World}
use osspilot_ops_api.Buckets.Rows.{Bucket}
use osspilot_ops_api.Buckets.Live.{BucketsHandler, RegError, reg_text}
use osspilot_ops_api.Buckets.Register.{register}
use osspilot_ops_api.Buckets.{
  ImportBuckets, BucketBody, outcomes, place, sorted_out, import_each, import_batch,
}

module _ {R P : Type 0} (h : BucketsHandler R P) (r : Request ImportBuckets)
    (user : Option User) where
  abbrev register_name : Option ℤ → String → Action (World R) RegError (Option Bucket)
  register_name region raw = register h r.origin r.now user (trim_space raw) none region none none

  -- The names one after the other, each from the state that the ones before it leave: a name is
  -- registered without the spaces around it, and its bucket or the text of its error is kept.
  pub data Sorted (region : Option ℤ)
      : World R → List String → List Bucket × List (String × String) → Type 0 where
    no_names : {w : World R} → Sorted region w [] ([], [])
    taken :
        {w : World R} {raw : String} {names : List String} {b : Bucket}
        {others : List Bucket × List (String × String)}
        → (register_name region raw w).0 ≡ ok (some b)
        → Sorted region (register_name region raw w).1 names others
        → Sorted region w (raw ∷ names) (b ∷ others.0, others.1)
    failed :
        {w : World R} {raw : String} {names : List String} {e : RegError}
        {others : List Bucket × List (String × String)}
        → (register_name region raw w).0 ≡ err e
        → Sorted region (register_name region raw w).1 names others
        → Sorted region w (raw ∷ names) (others.0, (trim_space raw, reg_text e) ∷ others.1)

  -- Each of 1 to 50 names, imported or failed
  abbrev pub SortedOut : World R → Response BucketBody → Type 0
  SortedOut w (json status (outcomes imported refused)) =
      (req : ImportBuckets) × (r.body ≡ some req)
      × Sorted req.storage_region_id w req.bucket_names (imported, refused)
      × (length imported + length refused ≡ length req.bucket_names)
      × (1 ≤ length req.bucket_names)
      × (length req.bucket_names ≤ 50)
  SortedOut w _ = ⊥

  Sorted-counts :
      {region : Option ℤ} {w : World R} {names : List String}
      {out : List Bucket × List (String × String)}
      → Sorted region w names out
      → length out.0 + length out.1 ≡ length names
  Sorted-counts no_names = omega arith
  Sorted-counts (taken e others) = omega (arith, Sorted-counts others)
  Sorted-counts (failed e others) = omega (arith, Sorted-counts others)

  -- What becomes of a name by the outcome of its registration, before the names after it
  place-Sorted :
      (region : Option ℤ) (raw : String) (names : List String) (w : World R)
      (outcome : Result RegError (Option Bucket)) (here : Bucket ⊎ (String × String))
      (others : List Bucket × List (String × String))
      → (register_name region raw w).0 ≡ outcome
      → ((sorted_out h (trim_space raw) outcome) (register_name region raw w).1).0 ≡ ok here
      → Sorted region (register_name region raw w).1 names others
      → Sorted region w (raw ∷ names) (place here others)
  place-Sorted region raw names w (ok none) here others same e rest = cc
  place-Sorted region raw names w (ok (some b)) (inl c) (good, bad) same e rest =
      let bucket : b ≡ c = cc in taken (same ∙ ap (λ x. ok (some x)) bucket) rest
  place-Sorted region raw names w (ok (some b)) (inr f) (good, bad) same e rest = cc
  place-Sorted region raw names w (err x) (inl c) (good, bad) same e rest = cc
  place-Sorted region raw names w (err x) (inr f) (good, bad) same e rest =
      let text : (trim_space raw, reg_text x) ≡ f = cc in
      subst (λ t. Sorted region w (raw ∷ names) (good, t ∷ bad)) text (failed same rest)

  sorted_out-state :
      (name : String) (outcome : Result RegError (Option Bucket)) (w : World R)
      → (sorted_out h name outcome w).1 ≡ w
  sorted_out-state name (ok none) w = refl
  sorted_out-state name (ok (some b)) w = refl
  sorted_out-state name (err e) w = refl

  import_each-Sorted :
      (region : Option ℤ) (names : List String) (w : World R)
      (out : List Bucket × List (String × String))
      → (import_each h r user region names w).0 ≡ ok out
      → Sorted region w names out
  unfolding import_each
  import_each-Sorted region [] w out e =
      let same : ([], []) ≡ out = cc in subst (Sorted region w []) same no_names
  import_each-Sorted region (raw ∷ names) w out e =
      let rest = import_each h r user region names in
      let w1 = (register_name region raw w).1 in
      let placing : Bucket ⊎ (String × String)
          → Handler (World R) BucketBody (List Bucket × List (String × String)) =
        λ here. rest >>= λ others. pure (place here others) in
      let (outcome, e0, e1) =
        bind_ok (attempt (register_name region raw))
          (λ outcome. sorted_out h (trim_space raw) outcome >>= placing) w e in
      let (here, e2, e3) = bind_ok (sorted_out h (trim_space raw) outcome) placing w1 e1 in
      let w2 = (sorted_out h (trim_space raw) outcome w1).1 in
      let (others, e4, e5) = bind_ok rest (λ found. pure (place here found)) w2 e3 in
      let same : (register_name region raw w).0 ≡ outcome = cc in
      let placed : place here others ≡ out = cc in
      let e6 : (rest w1).0 ≡ ok others =
        sym (ap (λ v. (rest v).0) (sorted_out-state (trim_space raw) outcome w1)) ∙ e4 in
      subst (Sorted region w (raw ∷ names)) placed (
        place-Sorted region raw names w outcome here others same e2
          (import_each-Sorted region names w1 others e6))

  in_bounds : (n : ℕ) → not (eqb n 0 || ltb 50 n) ≡ true → (1 ≤ n) × (n ≤ 50)
  in_bounds n e = (ground (arith, e), ground (arith, e))

  -- An answer of `importBatch` without an error takes the names of the request in order, 1 to 50,
  -- whatever fails on the way: each is registered without the spaces around it, from the state that
  -- the names before it leave, and answered with its bucket or with the text of its error, one of
  -- them for each name.
  pub import_batch-SortedOut :
      (w : World R) (a : Response BucketBody) → (import_batch h r user w).0 ≡ ok a → SortedOut w a
  unfolding import_batch
  import_batch-SortedOut w a e =
      let (stored, e0) = guard_ok h.store _ _ w e in
      let (req, body, e1) = require_ok _ r.body _ w e0 in
      let (counted, e2) =
        guard_ok (not (eqb (length req.bucket_names) 0 || ltb 50 (length req.bucket_names))) _ _ w
          e1 in
      let (out, e3, e4) =
        bind_ok (import_each h r user req.storage_region_id req.bucket_names) _ w e2 in
      let each = import_each-Sorted req.storage_region_id req.bucket_names w out e3 in
      let (low, high) = in_bounds (length req.bucket_names) counted in
      let answer : json 200 (outcomes out.0 out.1) ≡ a = cc in
      subst (SortedOut w) answer (req, body, each, Sorted-counts each, low, high)
