-- ===== src/Schema/Ops.antt =====
-- migrations/00001_ops_users.sql and 00006: operator accounts and their roles.
use osspilot_ops_api.Common.{ℕ, String, Bool, Option, List}

pub record OpsUser : Type 0 where
  pub id : ℕ
  pub username : String
  pub password_hash : String
  pub display_name : Option String
  pub email : Option String
  pub phone : Option String
  pub status : String
  pub must_change_password : Bool
  pub last_login_at : Option ℕ
  pub created_at : ℕ
  pub updated_at : ℕ

-- A row of `ops_user_roles` joined with the role that it names.
pub record Binding : Type 0 where
  pub user_id : ℕ
  pub role : String

pub record OpsTables : Type 0 where
  pub users : List OpsUser
  pub bindings : List Binding
  pub next_user_id : ℕ
