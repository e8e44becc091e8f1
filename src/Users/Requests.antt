-- ===== src/Users/Requests.antt =====
-- Sequences of requests of one operator to internal/users, with any faults of the database.
mod Tests
use osspilot_ops_api.Common.{
  ℕ, suc, ◌+◌, ◌<◌, eqb, String, ◌≡◌, refl, ap, sym, ◌∙◌, ◌⊎◌, inl, inr, Bool, not, Option, none,
  some, List, [], ◌∷◌, ◌++◌, arith, first, first-append, All-keep, if◌then◌else◌,
}
use osspilot_ops_api.Action.{Result, Result-cases, ok, err, ◌>>=◌, ◌>>◌}
use osspilot_ops_api.Http.{Exit}
use osspilot_ops_api.Schema.{Tables, Store}
use osspilot_ops_api.Schema.Ops.{OpsUser, OpsTables}
use osspilot_ops_api.Crypto.{Crypto}
use osspilot_ops_api.Auth.{Request}
use osspilot_ops_api.Auth.Accounts.{User, by_id, update_where}
use osspilot_ops_api.Users.{
  UsersHandler, CreateRequest, UpdateRequest, PasswordResetRequest, load, list, get, create, update,
  remove, reset_password,
}
use osspilot_ops_api.Users.Accounts.{Record, write_record, add_row, delete_row}
use osspilot_ops_api.Users.Writes.{apply_update, with_roles, tables-list_records}
use osspilot_ops_api.Users.Safety.{tables-load, update_effect}
use osspilot_ops_api.Users.Actor.{
  IsActive, update_where-IsActive, users-with_roles, update-IsActive, remove_effect,
  remove-IsActive,
}
use osspilot_ops_api.Users.Create.{row_for, with_hash, create_effect, reset_effect}
use osspilot_ops_api.Users.WellFormed.{
  IsDistinct, IsWellFormed, IsDistinct-map, All-map_serial, IsDistinct-keep, IsDistinct-add,
  serial-add,
}

module _ (c : Crypto) (h : UsersHandler) (actor : User) where
  -- One request: the tables are those that the handler leaves, and the next faults are free.
  pub data Step (s s' : Store) : Type 0 where
    lists : (r : Request Unit) → s'.tables ≡ (list h r s).1.tables → Step s s'
    gets : (r : Request Unit) → s'.tables ≡ (get h r s).1.tables → Step s s'
    creates : (r : Request CreateRequest) → s'.tables ≡ (create c h r actor s).1.tables → Step s s'
    updates : (r : Request UpdateRequest) → s'.tables ≡ (update h r actor s).1.tables → Step s s'
    removes : (r : Request Unit) → s'.tables ≡ (remove h r actor s).1.tables → Step s s'
    resets :
        (r : Request PasswordResetRequest)
        → s'.tables ≡ (reset_password c h r actor s).1.tables
        → Step s s'

  pub data Reach (s : Store) : Store → Type 0 where
    here : Reach s s
    next : {t u : Store} → Reach s t → Step t u → Reach s u

  tables-list : (r : Request Unit) (s : Store) → (list h r s).1.tables ≡ s.tables
  unfolding list
  tables-list r s = ground (arith, tables-list_records s)

  tables-get : (r : Request Unit) (s : Store) → (get h r s).1.tables ≡ s.tables
  unfolding get
  tables-get r s = elim (Result-cases (load h r s).0) [
    | inl (u, e) ↦ ground (arith, tables-load h r s)
    | inr (e, p) ↦ ground (arith, tables-load h r s)
  ]

  create-IsActive :
      (r : Request CreateRequest) (s : Store)
      → IsActive actor.id s.tables.ops
      → IsActive actor.id (create c h r actor s).1.tables.ops
  create-IsActive r s (row, found, active) = elim (create_effect c h actor s r) [
    | inl same ↦ rw same (row, found, active)
    | inr (req, roles, hash, known, hashed, fresh, wrote) ↦ rw wrote (
      row,
      rw users-with_roles (first-append (by_id actor.id) s.tables.users _ row found),
      active,
    )
  ]

  reset-IsActive :
      (r : Request PasswordResetRequest) (s : Store)
      → IsActive actor.id s.tables.ops
      → IsActive actor.id (reset_password c h r actor s).1.tables.ops
  reset-IsActive r s a = elim (reset_effect c h actor s r) [
    | inl same ↦ rw same a
    | inr (id, req, hash, hashed, wrote) ↦ rw wrote (
        update_where-IsActive actor.id id (with_hash c h actor s r hash) s.tables (λ u. refl)
          (λ row found same active. active) a)
  ]

  Step-IsActive :
      {s s' : Store} → Step s s' → IsActive actor.id s.tables.ops → IsActive actor.id s'.tables.ops
  Step-IsActive {s} (lists r e) a = rw (e, tables-list r s) a
  Step-IsActive {s} (gets r e) a = rw (e, tables-get r s) a
  Step-IsActive {s} (creates r e) a = rw e (create-IsActive r s a)
  Step-IsActive {s} (updates r e) a = rw e (update-IsActive h r actor s a)
  Step-IsActive {s} (removes r e) a = rw e (remove-IsActive h r actor s a)
  Step-IsActive {s} (resets r e) a = rw e (reset-IsActive r s a)

  -- Whatever an active operator asks of internal/users, in any order and with any faults of the
  -- database: the operator's own account stays there, and stays active.
  pub Reach-IsActive :
      {s t : Store} → Reach s t → IsActive actor.id s.tables.ops → IsActive actor.id t.tables.ops
  Reach-IsActive here a = a
  Reach-IsActive (next r st) a = Step-IsActive st (Reach-IsActive r a)

  update_where-IsWellFormed :
      (id : ℕ) (f : OpsUser → OpsUser) (t : Tables)
      → ((u : OpsUser) → ((f u).id ≡ u.id) × ((f u).username ≡ u.username))
      → IsWellFormed t.ops
      → IsWellFormed (update_where id f t).ops
  update_where-IsWellFormed id f t same w =
      let g = λ (u : OpsUser). if eqb u.id id then f u else u in
      let same' : (u : OpsUser) → ((g u).id ≡ u.id) × ((g u).username ≡ u.username) =
        λ u. ground (arith, same u) in
      record {
        distinct = IsDistinct-map g same' t.users w.distinct;
        serial = All-map_serial g same' t.next_user_id t.users w.serial;
      }

  with_roles-IsWellFormed :
      (id : ℕ) (roles : List String) (t : Tables)
      → IsWellFormed t.ops
      → IsWellFormed (with_roles id roles t).ops
  unfolding with_roles
  with_roles-IsWellFormed id [] t w = record { distinct = w.distinct; serial = w.serial }
  with_roles-IsWellFormed id (x ∷ xs) t w = record { distinct = w.distinct; serial = w.serial }

  apply_update-IsWellFormed :
      (u : Record) (roles : Option (List String)) (t : Tables)
      → IsWellFormed t.ops
      → IsWellFormed (apply_update u roles t).ops
  unfolding apply_update
  apply_update-IsWellFormed u none t w =
      update_where-IsWellFormed u.id (write_record u) t (λ x. (refl, refl)) w
  apply_update-IsWellFormed u (some roles) t w =
      with_roles-IsWellFormed u.id roles _
        (update_where-IsWellFormed u.id (write_record u) t (λ x. (refl, refl)) w)

  create-IsWellFormed :
      (r : Request CreateRequest) (s : Store)
      → IsWellFormed s.tables.ops
      → IsWellFormed (create c h r actor s).1.tables.ops
  create-IsWellFormed r s w = elim (create_effect c h actor s r) [
    | inl same ↦ rw same w
    | inr (req, roles, hash, known, hashed, fresh, wrote) ↦
        let row = row_for c h actor s r req hash in
        let n = s.tables.next_user_id in
        rw wrote (
          with_roles-IsWellFormed n roles (add_row row s.tables) (record {
            distinct = IsDistinct-add n row refl s.tables.users w.distinct w.serial fresh;
            serial = serial-add n row refl s.tables.users w.serial;
          }))
  ]

  delete_row-IsWellFormed :
      (id : ℕ) (t : Tables) → IsWellFormed t.ops → IsWellFormed (delete_row id t).ops
  unfolding delete_row
  delete_row-IsWellFormed id t w = record {
    distinct = IsDistinct-keep (λ (u : OpsUser). not (eqb u.id id)) t.users w.distinct;
    serial =
        All-keep (λ u. u.id < t.next_user_id) (λ (u : OpsUser). not (eqb u.id id)) t.users w.serial;
  }

  Step-IsWellFormed :
      {s s' : Store} → Step s s' → IsWellFormed s.tables.ops → IsWellFormed s'.tables.ops
  Step-IsWellFormed {s} (lists r e) w = rw (e, tables-list r s) w
  Step-IsWellFormed {s} (gets r e) w = rw (e, tables-get r s) w
  Step-IsWellFormed {s} (creates r e) w = rw e (create-IsWellFormed r s w)
  Step-IsWellFormed {s} (updates r e) w = rw e (elim (update_effect h r actor s) [
    | inl same ↦ rw same w
    | inr (u, roles, checked, wrote) ↦ rw wrote (apply_update-IsWellFormed u roles s.tables w)
  ])
  Step-IsWellFormed {s} (removes r e) w = rw e (elim (remove_effect h r actor s) [
    | inl same ↦ rw same w
    | inr (id, other, wrote) ↦ rw wrote (delete_row-IsWellFormed id s.tables w)
  ])
  Step-IsWellFormed {s} (resets r e) w = rw e (elim (reset_effect c h actor s r) [
    | inl same ↦ rw same w
    | inr (id, req, hash, hashed, wrote) ↦
        rw wrote (
          update_where-IsWellFormed id (with_hash c h actor s r hash) s.tables (λ u. (refl, refl))
            w)
  ])

  -- Any sequence of requests to internal/users, with any faults of the database, keeps the ids and
  -- the user names of the operators distinct, and the ids below the next one.
  pub Reach-IsWellFormed :
      {s t : Store} → Reach s t → IsWellFormed s.tables.ops → IsWellFormed t.tables.ops
  Reach-IsWellFormed here w = w
  Reach-IsWellFormed (next r st) w = Step-IsWellFormed st (Reach-IsWellFormed r w)
