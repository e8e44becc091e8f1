-- ===== src/Users/Requests/Tests.antt =====
-- Tests of internal/users, and its theorems at concrete requests.
use osspilot_ops_api.Common.{String, ◌≡◌, refl, true, false, Option, none, some, [], ◌∷◌, arith}
use osspilot_ops_api.Common.Text.{trim_space}
use osspilot_ops_api.Common.Decimal.{parse_id}
use osspilot_ops_api.Common.Strings.{sort_strings, join}
use osspilot_ops_api.Action.{ok, err}
use osspilot_ops_api.Database.{exec, query, transaction}
use osspilot_ops_api.Http.{error, no_content, reply}
use osspilot_ops_api.Schema.{empty_tables, Store}
use osspilot_ops_api.Schema.Ops.{OpsUser}
use osspilot_ops_api.Crypto.Toy.{toy}
use osspilot_ops_api.Audit.{write_entry}
use osspilot_ops_api.Auth.{Request}
use osspilot_ops_api.Auth.Accounts.{User, roles_of, has_binding}
use osspilot_ops_api.Auth.Session.{check_create_password}
use osspilot_ops_api.Users.{
  UsersHandler, CreateRequest, path_id, load, empty_to_nil, create, update, remove, check_status,
  check_roles, store_update,
}
use osspilot_ops_api.Users.Roles.{normalize_roles}
use osspilot_ops_api.Users.Accounts.{columns_fit, insert, get_record, update_record, delete}
use osspilot_ops_api.Users.Actor.{IsActive}
use osspilot_ops_api.Users.WellFormed.{IsWellFormed}
use osspilot_ops_api.Users.Requests.{
  Reach, here, next, creates, removes, Reach-IsActive, Reach-IsWellFormed,
}

abbrev root : OpsUser
root = record {
  id = 1;
  username = "root";
  password_hash = "h";
  display_name = none;
  email = none;
  phone = none;
  status = "active";
  must_change_password = false;
  last_login_at = none;
  created_at = 1;
  updated_at = 1;
}

abbrev initial : Store
initial = record {
  tables = record empty_tables {
    ops = record { users = root ∷ []; bindings = []; next_user_id = 2 };
  };
  faults = [];
}

abbrev caller : User
caller = record {
  id = 1;
  username = "root";
  password_hash = "h";
  display_name = none;
  email = none;
  phone = none;
  status = "active";
  roles = "platform_admin" ∷ [];
  last_login_at = none;
  must_change_password = false;
}

abbrev users : UsersHandler
users = record { store = true; audit = true }

abbrev request : {Q : Type 0} → String → Option Q → Request Q
request id body = record {
  path = "/api/users";
  authorization = "";
  path_value = λ name. id;
  body = body;
  origin = record { source_ip = none; user_agent = none };
  now = 50;
  salt = 0;
}

abbrev new_user : CreateRequest
new_user = record {
  username = " ann ";
  password = "long-enough";
  display_name = some " ";
  email = none;
  phone = none;
  ops_roles = "ops_operator" ∷ " platform_admin" ∷ "ops_operator" ∷ [];
  must_change_password = none;
  confirm_password = "";
}

code : Unit {0}
unfolding path_id load empty_to_nil create update remove check_status check_roles store_update
    normalize_roles columns_fit insert get_record update_record delete exec query transaction
    trim_space parse_id sort_strings join write_entry roles_of has_binding check_create_password
code = tt

roles_normalized :
    normalize_roles ("platform_admin" ∷ "" ∷ " ops_operator" ∷ "platform_admin" ∷ [])
    ≡ ok ("ops_operator" ∷ "platform_admin" ∷ [])
unfolding code
roles_normalized = refl

roles_refused : normalize_roles ("x" ∷ "ops_operator" ∷ "a" ∷ []) ≡ err "Invalid ops role(s): a, x"
unfolding code
roles_refused = refl

cannot_delete_self :
    (remove users (request {Q = Unit} "1" none) caller initial).0
    ≡ err (reply (error 400 "Cannot delete your own account"))
unfolding code
cannot_delete_self = refl

abbrev after_create : Store
after_create = (create toy users (request "" (some new_user)) caller initial).1

created : (after_create.tables.next_user_id ≡ 3)
unfolding code
created = refl

deleted_again : (remove users (request {Q = Unit} "2" none) caller after_create).0 ≡ ok no_content
unfolding code
deleted_again = refl

abbrev path :
    Reach toy users caller initial
      (remove users (request {Q = Unit} "2" none) caller after_create).1
path =
    next (next here (creates (request "" (some new_user)) refl)) (removes (request "2" none) refl)

Reach-IsActive_example :
    IsActive 1 (remove users (request {Q = Unit} "2" none) caller after_create).1.tables.ops
Reach-IsActive_example = Reach-IsActive toy users caller path (root, refl, refl)

Reach-IsWellFormed_example :
    IsWellFormed (remove users (request {Q = Unit} "2" none) caller after_create).1.tables.ops
Reach-IsWellFormed_example = Reach-IsWellFormed toy users caller path (omega arith)
