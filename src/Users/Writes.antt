-- ===== src/Users/Writes.antt =====
-- What the statements of internal/users/store.go may do to the tables, whatever faults occur.
use osspilot_ops_api.Common.{
  ℕ, String, ◌≡◌, refl, ◌⊎◌, Bool, true, false, Option, none, some, ◌==◌, List, [], ◌∷◌, arith, any,
}
use osspilot_ops_api.Action.{Result, ok, err}
use osspilot_ops_api.Database.{DbError, no_rows, unique_violation, broken}
use osspilot_ops_api.Schema.{Tables, Store}
use osspilot_ops_api.Auth.Accounts.{update_where}
use osspilot_ops_api.Users.Accounts.{
  Record, insert, clear_bindings, bind_roles, write_update, update_record, no_rows_as_none, new_row,
  add_row, columns_fit, write_record, delete, delete_row, reset_hash, get_record, list_records,
}

-- The tables after `replaceRoles`
unfoldable pub with_roles : ℕ → List String → Tables → Tables
with_roles id [] t = clear_bindings id t
with_roles id (x ∷ xs) t = bind_roles id (x ∷ xs) (clear_bindings id t)

-- The tables after the statements of `Update`
unfoldable pub apply_update : Record → Option (List String) → Tables → Tables
unfolding with_roles
apply_update u none t = update_where u.id (write_record u) t
apply_update u (some roles) t = with_roles u.id roles (update_where u.id (write_record u) t)

no_rows_as_none_err :
    (r : Result DbError Record × Store) → (no_rows_as_none r).0 ≡ err broken → r.0 ≡ err broken
no_rows_as_none_err (ok u, s) e = cc
no_rows_as_none_err (err no_rows, s) e = cc
no_rows_as_none_err (err unique_violation, s) e = cc
no_rows_as_none_err (err broken, s) e = refl

module _ (s : Store) where
  pub tables-get_record : (id : ℕ) → (get_record id s).1.tables ≡ s.tables
  unfolding get_record
  tables-get_record id = ground arith

  pub tables-list_records : (list_records s).1.tables ≡ s.tables
  unfolding list_records
  tables-list_records = ground arith

  pub tables-delete :
      (id : ℕ)
      → ((delete id s).1.tables ≡ s.tables) ⊎ ((delete id s).1.tables ≡ delete_row id s.tables)
  unfolding delete
  tables-delete id = ground arith

  pub tables-reset_hash :
      (id at : ℕ) (hash : String)
      → ((reset_hash id hash at s).1.tables ≡ s.tables)
        ⊎ ((reset_hash id hash at s).1.tables
            ≡ update_where id (λ u. record u { password_hash = hash; updated_at = at }) s.tables)
  unfolding reset_hash
  tables-reset_hash id at hash = ground arith

  tables-write_update :
      (u : Record) (roles : Option (List String))
      → ((write_update u roles s).1.tables ≡ s.tables)
        ⊎ ((write_update u roles s).1.tables ≡ apply_update u roles s.tables)
  unfolding write_update with_roles apply_update
  tables-write_update u none = ground arith
  tables-write_update u (some []) = ground arith
  tables-write_update u (some (x ∷ xs)) = ground arith

  pub tables-update_record :
      (u : Record) (roles : Option (List String))
      → ((update_record u roles s).1.tables ≡ s.tables)
        ⊎ ((update_record u roles s).1.tables ≡ apply_update u roles s.tables)
  unfolding update_record
  tables-update_record u roles = ground (arith, tables-write_update u roles)

  tables-write_update_err :
      (u : Record) (roles : Option (List String))
      → (write_update u roles s).0 ≡ err broken
      → (write_update u roles s).1.tables ≡ s.tables
  unfolding write_update
  tables-write_update_err u none e = ground arith
  tables-write_update_err u (some []) e = ground arith
  tables-write_update_err u (some (x ∷ xs)) e = ground arith

  -- A failed `Update` has written nothing.
  pub tables-update_record_err :
      (u : Record) (roles : Option (List String))
      → (update_record u roles s).0 ≡ err broken
      → (update_record u roles s).1.tables ≡ s.tables
  unfolding update_record
  tables-update_record_err u roles e =
      ground
        (arith, tables-write_update_err u roles (no_rows_as_none_err (write_update u roles s) e))

  module _ (username hash : String) (display_name email phone : Option String) (must : Bool)
      (at : ℕ) where
    pub tables-insert :
        (roles : List String)
        → ((insert username hash display_name email phone roles must at s).1.tables ≡ s.tables)
          ⊎ ((columns_fit
                  (new_row username hash display_name email phone must at s.tables.next_user_id)
                ≡ true)
              × (any (λ x. x.username == username) s.tables.users ≡ false)
              × ((insert username hash display_name email phone roles must at s).1.tables
                  ≡ with_roles s.tables.next_user_id roles (
                      add_row
                        (new_row username hash display_name email phone must at
                          s.tables.next_user_id)
                        s.tables)))
    unfolding insert with_roles
    tables-insert [] = ground arith
    tables-insert (x ∷ xs) = ground arith
