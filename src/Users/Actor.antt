-- ===== src/Users/Actor.antt =====
-- No request of an operator to the handlers of internal/users takes away the operator's own account.
use osspilot_ops_api.Common.{
  ℕ, eqb, eqb_iff, String, ◌≡◌, ◌≢◌, refl, sym, ◌∙◌, ◌⊎◌, inl, inr, not, Option, none, some, List,
  [], ◌∷◌, arith, if◌then◌else◌, first, first-map, first-keep, first-eq-some, Option-cases,
  Bool-cases,
}
use osspilot_ops_api.Common.Decimal.{parse_id}
use osspilot_ops_api.Http.{Exit}
use osspilot_ops_api.Schema.{Tables, Store}
use osspilot_ops_api.Schema.Ops.{OpsUser, OpsTables}
use osspilot_ops_api.Audit.Laws.{write_entry_lem}
use osspilot_ops_api.Auth.{Request}
use osspilot_ops_api.Auth.Accounts.{User, by_id, update_where}
use osspilot_ops_api.Users.{UsersHandler, UpdateRequest, Body, path_id, update, remove}
use osspilot_ops_api.Users.Accounts.{Record, write_record, delete, delete_row}
use osspilot_ops_api.Users.Writes.{apply_update, with_roles, tables-delete}
use osspilot_ops_api.Users.Safety.{IsChecked, update_effect}

-- The operator with this id is there, and active.
abbrev pub IsActive : ℕ → OpsTables → Type 0
IsActive id t = (row : OpsUser) × (first (by_id id) t.users ≡ some row) × (row.status ≡ "active")

module _ (j id : ℕ) (f : OpsUser → OpsUser) (t : Tables) where
  -- A look-up by id after an update of the row with another or the same id.
  pub update_where-IsActive :
      ((u : OpsUser) → (f u).id ≡ u.id)
      → ((row : OpsUser)
          → first (by_id j) t.users ≡ some row
          → row.id ≡ id
          → row.status ≡ "active"
          → (f row).status ≡ "active")
      → IsActive j t.ops
      → IsActive j (update_where id f t).ops
  update_where-IsActive same stays (row, found, active) =
      let g = λ (u : OpsUser). if eqb u.id id then f u else u in
      (
        g row,
        first-map (by_id j) g t.users row (λ x. ground (arith, same x)) found,
        ground (arith, stays row found, eqb_iff row.id id),
      )

pub users-with_roles :
    (id : ℕ) (roles : List String) (t : Tables) → (with_roles id roles t).users ≡ t.users
unfolding with_roles
users-with_roles id [] t = refl
users-with_roles id (x ∷ xs) t = refl

module _ (h : UsersHandler) (r : Request UpdateRequest) (actor : User) (s : Store) where
  write_record_status :
      (u : Record) (row : OpsUser)
      → first (by_id u.id) s.tables.users ≡ some row
      → (((u.status ≡ row.status) ⊎ (u.status ≡ "active"))
          ⊎ ((u.status ≡ "disabled") × (actor.id ≢ u.id)))
      → (row' : OpsUser) → first (by_id actor.id) s.tables.users ≡ some row'
      → row'.id ≡ u.id
      → row'.status ≡ "active"
      → u.status ≡ "active"
  write_record_status u row found checked row' found' is_row active =
      let mine =
        (eqb_iff row'.id actor.id).0 (first-eq-some (by_id actor.id) s.tables.users row' found') in
      let same : actor.id ≡ u.id = sym mine ∙ is_row in
      let found'' : first (by_id u.id) s.tables.users ≡ some row' = rw (← same) found' in
      ground arith

  write_record-IsActive :
      (u : Record)
      → IsChecked h r actor s u
      → IsActive actor.id s.tables.ops
      → IsActive actor.id (update_where u.id (write_record u) s.tables).ops
  write_record-IsActive u (row, found, checked) a =
      update_where-IsActive actor.id u.id (write_record u) s.tables (λ x. refl)
        (write_record_status u row found checked) a

  apply_update-IsActive :
      (u : Record) (roles : Option (List String))
      → IsChecked h r actor s u
      → IsActive actor.id s.tables.ops
      → IsActive actor.id (apply_update u roles s.tables).ops
  unfolding apply_update
  apply_update-IsActive u none checked a = write_record-IsActive u checked a
  apply_update-IsActive u (some roles) checked a =
      let (row, found, active) = write_record-IsActive u checked a in
      (row, rw users-with_roles found, active)

  pub update-IsActive :
      IsActive actor.id s.tables.ops → IsActive actor.id (update h r actor s).1.tables.ops
  update-IsActive a = elim (update_effect h r actor s) [
    | inl same ↦ rw same a
    | inr (u, roles, checked, wrote) ↦ rw wrote (apply_update-IsActive u roles checked a)
  ]

module _ (h : UsersHandler) {Q : Type 0} (r : Request Q) (actor : User) (s : Store) where
  remove_writes :
      (id : ℕ)
      → parse_id (r.path_value "user_id") ≡ some id
      → ((remove h r actor s).1.tables.ops ≡ s.tables.ops)
        ⊎ ((remove h r actor s).1.tables.ops ≡ (delete_row id s.tables).ops)
  unfolding remove path_id
  remove_writes id good = ground (
    arith,
    tables-delete s id,
    write_entry_lem (Exit Body) h.audit r.origin actor.id actor.username "user_delete" "" "success"
        "" (delete id s).1,
  )

  pub remove_effect :
      ((remove h r actor s).1.tables.ops ≡ s.tables.ops)
      ⊎ ((id : ℕ) × (actor.id ≢ id)
          × ((remove h r actor s).1.tables.ops ≡ (delete_row id s.tables).ops))
  unfolding remove path_id
  remove_effect = elim (Option-cases (parse_id (r.path_value "user_id"))) [
    | inl bad ↦ inl (ground arith)
    | inr (id, good) ↦ elim (Bool-cases (eqb actor.id id)) [
      | inl self ↦ inl (ground arith)
      | inr other ↦ elim (remove_writes id good) [
        | inl same ↦ inl same
        | inr wrote ↦ inr (id, ground arith, wrote)
      ]
    ]
  ]

  pub remove-IsActive :
      IsActive actor.id s.tables.ops → IsActive actor.id (remove h r actor s).1.tables.ops
  unfolding delete_row
  remove-IsActive (row, found, active) = elim remove_effect [
    | inl same ↦ rw same (row, found, active)
    | inr (id, other, wrote) ↦ rw wrote (
      row,
      first-keep (by_id actor.id) (λ (u : OpsUser). not (eqb u.id id)) s.tables.users
            (λ x p. ground arith)
          ∙ found,
      active,
    )
  ]
