-- ===== src/Users/Accounts.antt =====
-- internal/users/store.go
use Prim.Native.String.{count}
use osspilot_ops_api.Common.{
  ℕ, eqb, leb, ◌+◌, String, Bool, true, false, not, ◌&&◌, Option, none, some, List, [], ◌∷◌, ◌++◌,
  map, any, keep, first, ◌==◌, if◌then◌else◌,
}
use osspilot_ops_api.Action.{Result, ok, err, Action, ◌>>=◌, ◌>>◌, pure}
use osspilot_ops_api.Database.{DbError, no_rows, unique_violation, broken, exec, query, transaction}
use osspilot_ops_api.Schema.{Tables, Store}
use osspilot_ops_api.Schema.Ops.{OpsUser, Binding}
use osspilot_ops_api.Schema.Audit.{AuditRow}
use osspilot_ops_api.Schema.Alerts.{EventRow}
use osspilot_ops_api.Auth.Accounts.{role_names, roles_of, by_id, update_where}

pub record Record : Type 0 where
  pub id : ℕ
  pub username : String
  pub display_name : Option String
  pub email : Option String
  pub phone : Option String
  pub status : String
  pub roles : List String
  pub last_login_at : Option ℕ
  pub created_at : ℕ
  pub updated_at : ℕ

-- `scan`, with the roles that are put in afterwards
abbrev pub record_of : OpsUser → List String → Record
record_of u roles = record {
  id = u.id;
  username = u.username;
  display_name = u.display_name;
  email = u.email;
  phone = u.phone;
  status = u.status;
  roles = roles;
  last_login_at = u.last_login_at;
  created_at = u.created_at;
  updated_at = u.updated_at;
}

-- `rolesForTx`, and `rolesByUser` at one operator
unfoldable pub roles_for : ℕ → Action Store DbError (List String)
unfolding query
roles_for user_id = query (λ t. ok (roles_of t user_id))

-- `List`: the rows in the order of their ids, which is that of their insertion, and all roles.
unfoldable pub list_records : Action Store DbError (List Record)
unfolding query
list_records = do
  rows ← query (λ t. ok t.users)
  query (λ t. ok (map (λ (u : OpsUser). record_of u (roles_of t u.id)) rows))

read_roles : Option OpsUser → Action Store DbError (Option Record)
unfolding roles_for
read_roles none = pure none
read_roles (some u) = do roles ← roles_for u.id; pure (some (record_of u roles))

-- `GetByID`
unfoldable pub get_record : ℕ → Action Store DbError (Option Record)
unfolding read_roles query
get_record id = do row ← query (λ t. ok (first (by_id id) t.users)); read_roles row

-- The lengths of the VARCHAR columns, in characters.
abbrev pub fits : ℕ → Option String → Bool
fits limit none = true
fits limit (some s) = leb (count s) limit

unfoldable pub columns_fit : OpsUser → Bool
columns_fit u =
    fits 64 (some u.username)
    && fits 255 (some u.password_hash)
    && fits 128 u.display_name
    && fits 255 u.email
    && fits 32 u.phone
    && fits 32 (some u.status)

abbrev pub add_row : OpsUser → Tables → Tables
add_row u t = record t {
  ops = record t.ops { users = t.users ++ u ∷ []; next_user_id = t.next_user_id + 1 };
}

-- INSERT INTO ops_users … RETURNING: the row with the next id, unless a column is too long or
-- the unique index on `username` refuses it.
unfoldable pub insert_row : (ℕ → OpsUser) → Tables → Result DbError OpsUser × Tables
insert_row row t =
    let u = row t.next_user_id in
    if not (columns_fit u)
    then (err broken, t)
    else if any (λ x. x.username == u.username) t.users
    then (err unique_violation, t)
    else (ok u, add_row u t)

abbrev pub set_bindings : List Binding → Tables → Tables
set_bindings bindings t = record t { ops = record t.ops { bindings = bindings } }

-- DELETE FROM ops_user_roles WHERE user_id = $1
abbrev pub clear_bindings : ℕ → Tables → Tables
clear_bindings user_id t =
    set_bindings (keep (λ (b : Binding). not (eqb b.user_id user_id)) t.bindings) t

abbrev pub binding : ℕ → String → Binding
binding user_id role = record { user_id = user_id; role = role }

-- INSERT INTO ops_user_roles SELECT $1, id FROM ops_roles WHERE name = ANY($2)
abbrev pub bind_roles : ℕ → List String → Tables → Tables
bind_roles user_id roles t =
    set_bindings
      (t.bindings ++ map (binding user_id) (keep (λ n. any (λ x. x == n) roles) role_names)) t

insert_bindings : ℕ → List String → Action Store DbError Unit
unfolding exec
insert_bindings user_id [] = pure tt
insert_bindings user_id (x ∷ xs) = exec (λ t. (ok tt, bind_roles user_id (x ∷ xs) t))

-- `replaceRoles`
unfoldable pub replace_roles : ℕ → List String → Action Store DbError Unit
unfolding insert_bindings
replace_roles user_id roles = do
  exec (λ t. (ok tt, clear_bindings user_id t))
  insert_bindings user_id roles

abbrev pub new_row :
    String → String → Option String → Option String → Option String → Bool → ℕ → ℕ → OpsUser
new_row username hash display_name email phone must_change at id = record {
  id = id;
  username = username;
  password_hash = hash;
  display_name = display_name;
  email = email;
  phone = phone;
  status = "active";
  must_change_password = must_change;
  last_login_at = none;
  created_at = at;
  updated_at = at;
}

-- `Insert`
unfoldable pub insert :
    String
    → String
    → Option String
    → Option String
    → Option String
    → List String
    → Bool
    → ℕ
    → Action Store DbError Record
unfolding replace_roles transaction insert_row
insert username hash display_name email phone roles must_change at = transaction do
  u ← exec (insert_row (new_row username hash display_name email phone must_change at))
  replace_roles u.id roles
  pure (record_of u roles)

-- UPDATE ops_users SET display_name, … WHERE id = $1
abbrev pub write_record : Record → OpsUser → OpsUser
write_record u row = record row {
  display_name = u.display_name;
  email = u.email;
  phone = u.phone;
  status = u.status;
  updated_at = u.updated_at;
}

-- … RETURNING: the row as it is written.
unfoldable pub update_row : Record → Tables → Result DbError OpsUser × Tables
update_row u t = elim (first (by_id u.id) t.users) [
  | none ↦ (err no_rows, t)
  | some row ↦
      if columns_fit (write_record u row)
      then (ok (write_record u row), update_where u.id (write_record u) t)
      else (err broken, t)
]

unfoldable pub new_roles : ℕ → Option (List String) → Action Store DbError (List String)
unfolding replace_roles roles_for
new_roles id none = roles_for id
new_roles id (some roles) = do replace_roles id roles; pure roles

-- `if err == pgx.ErrNoRows { return nil, nil }`
abbrev pub no_rows_as_none : Result DbError Record × Store → Result DbError (Option Record) × Store
no_rows_as_none (ok u, s) = (ok (some u), s)
no_rows_as_none (err no_rows, s) = (ok none, s)
no_rows_as_none (err e, s) = (err e, s)

-- The transaction of `Update`
unfoldable pub write_update : Record → Option (List String) → Action Store DbError Record
unfolding new_roles transaction update_row
write_update u roles =
    transaction
      do row ← exec (update_row u); names ← new_roles u.id roles; pure (record_of row names)

-- `Update`
unfoldable pub update_record : Record → Option (List String) → Action Store DbError (Option Record)
unfolding write_update
update_record u roles s = no_rows_as_none (write_update u roles s)

-- `RowsAffected() == 0` is `pgx.ErrNoRows`.
abbrev pub affecting : ℕ → (Tables → Tables) → Tables → Result DbError Unit × Tables
affecting id f t = elim (any (by_id id) t.users) [ true ↦ (ok tt, f t) | false ↦ (err no_rows, t) ]

-- `UpdatePassword`, which leaves `must_change_password` as it is
unfoldable pub reset_hash : ℕ → String → ℕ → Action Store DbError Unit
unfolding exec
reset_hash id hash at =
    exec (affecting id (update_where id (λ u. record u { password_hash = hash; updated_at = at })))

-- ON DELETE SET NULL of `audit_logs.user_id`
abbrev forget_user : ℕ → AuditRow → AuditRow
forget_user id e = elim e.user_id [
  | none ↦ e
  | some n ↦ if eqb n id then record e { user_id = none } else e
]

-- ON DELETE SET NULL of `alert_events.acknowledged_by`
abbrev forget_acknowledger : ℕ → EventRow → EventRow
forget_acknowledger id e = elim e.acknowledged_by [
  | none ↦ e
  | some n ↦ if eqb n id then record e { acknowledged_by = none } else e
]

-- DELETE FROM ops_users WHERE id = $1: the rows that refer to it go, or lose the reference.
unfoldable pub delete_row : ℕ → Tables → Tables
delete_row id t = record t {
  ops = record t.ops {
    users = keep (λ (u : OpsUser). not (eqb u.id id)) t.users;
    bindings = keep (λ (b : Binding). not (eqb b.user_id id)) t.bindings;
  };
  alerts = record t.alerts { events = map (forget_acknowledger id) t.alerts.events };
  audit_logs = map (forget_user id) t.audit_logs;
}

-- `Delete`
unfoldable pub delete : ℕ → Action Store DbError Unit
unfolding exec delete_row
delete id = exec (affecting id (delete_row id))
