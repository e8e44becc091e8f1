-- ===== src/Auth/Accounts.antt =====
-- internal/auth/store.go
pub mod Lookup
use osspilot_ops_api.Common.{
  ℕ, eqb, String, Bool, true, false, ◌&&◌, ◌||◌, Option, none, some, List, [], ◌∷◌, map, ◌==◌,
  if◌then◌else◌, any, first, keep,
}
use osspilot_ops_api.Action.{Result, ok, err, Action, ◌>>=◌, ◌>>◌, pure}
use osspilot_ops_api.Database.{DbError, Db, exec, query}
use osspilot_ops_api.Schema.{Tables, Store}
use osspilot_ops_api.Schema.Ops.{OpsUser, Binding}

pub record User : Type 0 where
  pub id : ℕ
  pub username : String
  pub password_hash : String
  pub display_name : Option String
  pub email : Option String
  pub phone : Option String
  pub status : String
  pub roles : List String
  pub last_login_at : Option ℕ
  pub must_change_password : Bool

-- `(*User).HasRole`
unfoldable pub has_role : User → String → Bool
has_role u name = any (λ r. r == name) u.roles

-- The rows of `ops_roles`, which nothing but the migration writes, in the order of their names.
abbrev pub role_names : List String
role_names = "ops_operator" ∷ "platform_admin" ∷ []

unfoldable pub has_binding : List Binding → ℕ → String → Bool
has_binding bindings user_id name = any (λ b. eqb b.user_id user_id && b.role == name) bindings

-- SELECT r.name FROM ops_user_roles ur JOIN ops_roles r … WHERE ur.user_id = $1 ORDER BY r.name
unfoldable pub roles_of : Tables → ℕ → List String
roles_of t user_id = keep (has_binding t.bindings user_id) role_names

-- `loadRoles`
unfoldable pub load_roles : ℕ → Action Store DbError (List String)
unfolding query roles_of
load_roles user_id = query (λ t. ok (roles_of t user_id))

abbrev pub user_of : OpsUser → List String → User
user_of u roles = record {
  id = u.id;
  username = u.username;
  password_hash = u.password_hash;
  display_name = u.display_name;
  email = u.email;
  phone = u.phone;
  status = u.status;
  roles = roles;
  last_login_at = u.last_login_at;
  must_change_password = u.must_change_password;
}

with_roles : Option OpsUser → Action Store DbError (Option User)
unfolding load_roles
with_roles none = pure none
with_roles (some u) = do roles ← load_roles u.id; pure (some (user_of u roles))

-- `scanUser`
unfoldable pub scan_user : (OpsUser → Bool) → Action Store DbError (Option User)
unfolding with_roles query
scan_user where_clause = do row ← query (λ t. ok (first where_clause t.users)); with_roles row

abbrev pub by_username : String → OpsUser → Bool
by_username username u = u.username == username

abbrev pub by_id : ℕ → OpsUser → Bool
by_id id u = eqb u.id id

-- `GetByUsername`
abbrev pub get_by_username : String → Action Store DbError (Option User)
get_by_username username = scan_user (by_username username)

-- `GetByID`
abbrev pub get_by_id : ℕ → Action Store DbError (Option User)
get_by_id id = scan_user (by_id id)

-- UPDATE ops_users SET … WHERE id = $1
abbrev pub update_where : ℕ → (OpsUser → OpsUser) → Tables → Tables
update_where id f t = record t {
  ops = record t.ops { users = map (λ u. if eqb u.id id then f u else u) t.users };
}

-- `TouchLogin`
unfoldable pub touch_login : ℕ → ℕ → Action Store DbError Unit
unfolding exec
touch_login id at =
    exec
      (λ t. (ok tt, update_where id (λ u. record u { last_login_at = some at; updated_at = at }) t))

-- `UpdatePassword`
unfoldable pub update_password : ℕ → String → ℕ → Action Store DbError Unit
unfolding exec
update_password id hash at = exec (λ t. (
  ok tt,
  update_where id
      (λ u. record u { password_hash = hash; must_change_password = false; updated_at = at }) t,
))
