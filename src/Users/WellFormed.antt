-- ===== src/Users/WellFormed.antt =====
-- The constraints of the tables of operators, which every handler of internal/users keeps.
use osspilot_ops_api.Common.{
  ℕ, ◌+◌, ◌<◌, ◌≡◌, ◌≢◌, Bool, false, List, [], ◌∷◌, ◌++◌, map, arith, ◌==◌, eq_iff, any, keep, All,
  All-append, All-keep,
}
use osspilot_ops_api.Schema.Ops.{OpsUser, OpsTables}

-- The primary key and the unique index: no later row has the id or the name of an earlier one.
abbrev pub IsDistinct : List OpsUser → Type 0
IsDistinct [] = Unit
IsDistinct (u ∷ us) = All (λ v. (u.id ≢ v.id) × (u.username ≢ v.username)) us × IsDistinct us

pub record IsWellFormed (t : OpsTables) : Type 0 where
  pub distinct : IsDistinct t.users
  pub serial : All (λ u. u.id < t.next_user_id) t.users

module _ (f : OpsUser → OpsUser)
    (same : (u : OpsUser) → ((f u).id ≡ u.id) × ((f u).username ≡ u.username)) where
  All-map_row :
      (u : OpsUser) (us : List OpsUser)
      → All (λ v. (u.id ≢ v.id) × (u.username ≢ v.username)) us
      → All (λ v. ((f u).id ≢ v.id) × ((f u).username ≢ v.username)) (map f us)
  All-map_row u [] h = tt
  All-map_row u (v ∷ us) (h, hs) = (ground (arith, same u, same v), All-map_row u us hs)

  pub IsDistinct-map : (us : List OpsUser) → IsDistinct us → IsDistinct (map f us)
  IsDistinct-map [] h = tt
  IsDistinct-map (u ∷ us) (h, hs) = (All-map_row u us h, IsDistinct-map us hs)

  pub All-map_serial :
      (n : ℕ) (us : List OpsUser) → All (λ u. u.id < n) us → All (λ u. u.id < n) (map f us)
  All-map_serial n [] h = tt
  All-map_serial n (u ∷ us) (h, hs) = (ground (arith, same u), All-map_serial n us hs)

pub IsDistinct-keep :
    (p : OpsUser → Bool) (us : List OpsUser) → IsDistinct us → IsDistinct (keep p us)
IsDistinct-keep p [] h = tt
IsDistinct-keep p (u ∷ us) (h, hs) =
    let later = IsDistinct-keep p us hs in
    let apart = All-keep (λ (v : OpsUser). (u.id ≢ v.id) × (u.username ≢ v.username)) p us h in
    ground arith

module _ (n : ℕ) (row : OpsUser) (is_next : row.id ≡ n) where
  pub IsDistinct-add :
      (us : List OpsUser)
      → IsDistinct us
      → All (λ u. u.id < n) us
      → any (λ x. x.username == row.username) us ≡ false
      → IsDistinct (us ++ row ∷ [])
  IsDistinct-add [] h k fresh = (tt, tt)
  IsDistinct-add (u ∷ us) (h, hs) (k, ks) fresh = (
    All-append _ us (row ∷ []) h
        ((omega arith, ground (arith, eq_iff u.username row.username)), tt),
    IsDistinct-add us hs ks (ground arith),
  )

  pub serial-add :
      (us : List OpsUser) → All (λ u. u.id < n) us → All (λ u. u.id < n + 1) (us ++ row ∷ [])
  serial-add [] k = (omega arith, tt)
  serial-add (u ∷ us) (k, ks) = (omega arith, serial-add us ks)
