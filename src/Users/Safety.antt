-- ===== src/Users/Safety.antt =====
-- What the handlers of internal/users may do to the operators, and that none of them takes away the
-- account of the operator who calls it.
use osspilot_ops_api.Common.{
  ℕ, eqb_iff, String, ◌≡◌, ◌≢◌, refl, ap, ◌∙◌, ◌⊎◌, inl, inr, Option, none, some, List, arith,
  eq_iff, first, first-eq-some, Option-cases,
}
use osspilot_ops_api.Common.Decimal.{parse_id}
use osspilot_ops_api.Action.{Result-cases, ok, err}
use osspilot_ops_api.Database.{broken}
use osspilot_ops_api.Http.{Exit, database}
use osspilot_ops_api.Schema.{Tables, Store}
use osspilot_ops_api.Schema.Ops.{OpsUser}
use osspilot_ops_api.Audit.Laws.{write_entry_lem}
use osspilot_ops_api.Auth.{Request}
use osspilot_ops_api.Auth.Accounts.{User, by_id, roles_of}
use osspilot_ops_api.Users.{
  UsersHandler, UpdateRequest, Body, path_id, load, check_status, check_roles, store_update,
  changed, update, update_action,
}
use osspilot_ops_api.Users.Accounts.{Record, record_of, get_record, update_record}
use osspilot_ops_api.Users.Writes.{apply_update, tables-get_record, tables-update_record}

-- The record of a row with its roles.
abbrev listed : Tables → Option OpsUser → Option Record
listed t none = none
listed t (some row) = some (record_of row (roles_of t row.id))

module _ (id : ℕ) (s : Store) where
  get_record_lem :
      ((get_record id s).0 ≡ err broken)
      ⊎ ((get_record id s).0 ≡ ok (listed s.tables (first (by_id id) s.tables.users)))
  unfolding get_record
  get_record_lem = ground arith

module _ (h : UsersHandler) {Q : Type 0} (r : Request Q) (s : Store) where
  pub tables-load : (load h r s).1.tables ≡ s.tables
  unfolding load path_id
  tables-load = elim (Option-cases (parse_id (r.path_value "user_id"))) [
    | inl bad ↦ ground arith
    | inr (id, good) ↦ ground (arith, tables-get_record s id)
  ]

  -- What `load` returns is a row of the table with its roles.
  load_lem :
      (u : Record)
      → (load h r s).0 ≡ ok u
      → (row : OpsUser) × (first (by_id u.id) s.tables.users ≡ some row)
        × (u ≡ record_of row (roles_of s.tables row.id))
  unfolding load path_id
  load_lem u e = elim (Option-cases (parse_id (r.path_value "user_id"))) [
    | inl bad ↦ ground arith
    | inr (id, good) ↦ elim (Option-cases (first (by_id id) s.tables.users)) [
      | inl missing ↦ ground (arith, get_record_lem id s)
      | inr (row, found) ↦
          let loaded : u ≡ record_of row (roles_of s.tables row.id) =
            ground (arith, get_record_lem id s) in
          let same : row.id ≡ id =
            (eqb_iff row.id id).0 (first-eq-some (by_id id) s.tables.users row found) in
          (row, ground arith, loaded)
    ]
  ]

module _ (h : UsersHandler) (r : Request UpdateRequest) (actor : User) where
  pub store_update_effect :
      (s : Store) (u : Record) (roles : Option (List String))
      → ((store_update h r actor u roles s).1.tables.ops ≡ s.tables.ops)
        ⊎ ((store_update h r actor u roles s).1.tables.ops ≡ (apply_update u roles s.tables).ops)
  unfolding store_update
  store_update_effect s u roles =
      let d = (database {B = Body} (update_record u roles) s).1 in
      ground (
        arith,
        tables-update_record s u roles,
        write_entry_lem (Exit Body) h.audit r.origin actor.id actor.username (update_action roles)
            "" "success" "" (update_record u roles s).1,
      )

module _ (actor : User) where
  check_status_state :
      (u : Record) (o : Option String) (s : Store) → (check_status actor u o s).1 ≡ s
  unfolding check_status
  check_status_state u none s = refl
  check_status_state u (some status) s = ground arith

  check_status_lem :
      (u : Record) (o : Option String) (s : Store) {status : String}
      → (check_status actor u o s).0 ≡ ok status
      → ((status ≡ u.status) ⊎ (status ≡ "active")) ⊎ ((status ≡ "disabled") × (actor.id ≢ u.id))
  unfolding check_status
  check_status_lem u none s e = ground arith
  check_status_lem u (some status) s e =
      ground (arith, eq_iff status "active", eq_iff status "disabled", eqb_iff actor.id u.id)

check_roles_state : (o : Option (List String)) (s : Store) → (check_roles o s).1 ≡ s
unfolding check_roles
check_roles_state none s = refl
check_roles_state (some names) s = ground arith

module _ (h : UsersHandler) (r : Request UpdateRequest) (actor : User) (s : Store) where
  -- What `update` has checked of the record that it writes.
  abbrev pub IsChecked : Record → Type 0
  IsChecked u =
      (row : OpsUser) × (first (by_id u.id) s.tables.users ≡ some row)
      × (((u.status ≡ row.status) ⊎ (u.status ≡ "active"))
          ⊎ ((u.status ≡ "disabled") × (actor.id ≢ u.id)))

  update-IsChecked :
      (u : Record) (req : UpdateRequest)
      → (load h r s).0 ≡ ok u
      → r.body ≡ some req
      → ((update h r actor s).1.tables.ops ≡ s.tables.ops)
        ⊎ ((u : Record) × (roles : Option (List String)) × IsChecked u
            × ((update h r actor s).1.tables.ops ≡ (apply_update u roles s.tables).ops))
  unfolding update
  update-IsChecked u req loaded body =
      let s' = (load h r s).1 in
      let same = tables-load h r s in
      elim (Result-cases (check_status actor u req.status s').0) [
        | inr (e, bad) ↦ inl (ground (arith, same, check_status_state actor u req.status s'))
        | inl (status, good) ↦ elim (Result-cases (check_roles req.ops_roles s').0) [
          | inr (e, bad) ↦ inl (
              ground (
                arith,
                same,
                check_status_state actor u req.status s',
                check_roles_state req.ops_roles s',
              ))
          | inl (roles, known) ↦
              let u' = changed u req status r.now in
              let (row, found, is_row) = load_lem h r s u loaded in
              let checked : IsChecked u' = (
                row,
                found,
                ground (
                  arith,
                  check_status_lem actor u req.status s' good,
                  ap (λ (x : Record). x.status) is_row,
                ),
              ) in
              let reached : update h r actor s ≡ store_update h r actor u' roles s' = ground (
                arith,
                check_status_state actor u req.status s',
                check_roles_state req.ops_roles s',
              ) in
              elim (store_update_effect h r actor s' u' roles) [
                | inl kept ↦ inl (rw reached (kept ∙ ap (λ (t : Tables). t.ops) same))
                | inr wrote ↦ inr (
                  u',
                  roles,
                  checked,
                  rw reached (wrote ∙ ap (λ t. (apply_update u' roles t).ops) same),
                )
              ]
        ]
      ]

  -- Whatever the request and the faults, `update` leaves the operators as they were, or it writes
  -- a record whose status is checked, and roles.
  pub update_effect :
      ((update h r actor s).1.tables.ops ≡ s.tables.ops)
      ⊎ ((u : Record) × (roles : Option (List String)) × IsChecked u
          × ((update h r actor s).1.tables.ops ≡ (apply_update u roles s.tables).ops))
  unfolding update
  update_effect = elim (Result-cases (load h r s).0) [
    | inr (e, failed) ↦ inl (ground (arith, tables-load h r s))
    | inl (u, loaded) ↦ elim (Option-cases r.body) [
      | inl unread ↦ inl (ground (arith, tables-load h r s))
      | inr (req, body) ↦ update-IsChecked u req loaded body
    ]
  ]
