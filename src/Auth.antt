-- ===== src/Auth.antt =====
-- internal/auth: sign-in of operators, and the gate before every handler.
pub mod Token
pub mod Accounts
pub mod Gate
pub mod Session
mod Tests
use Prim.Native.String.{len}
use osspilot_ops_api.Common.{
  ℕ, ltb, ◌+◌, String, Bool, true, false, not, ◌&&◌, ◌||◌, Option, none, some, List, [], ◌∷◌, ◌==◌,
  if◌then◌else◌, any,
}
use osspilot_ops_api.Common.Text.{trim_space, strip_prefix}
use osspilot_ops_api.Action.{
  Result, ok, err, Action, attempt, ◌>>=◌, ◌>>◌, pure, guard, require, stop,
}
use osspilot_ops_api.Database.{DbError, Db, exec, query}
use osspilot_ops_api.Http.{Response, error, json, Exit, reply, Handler, refuse, database}
use osspilot_ops_api.Schema.{Tables, Store}
use osspilot_ops_api.Crypto.{Crypto, Claims}
use osspilot_ops_api.Audit.{Origin, record_entry}
use Accounts.{User, has_role, get_by_id}
use Token.{parse_token}

-- `auth.Handler`: whether it has a store and an audit log, the secret, and the life of a token.
pub record AuthHandler : Type 0 where
  pub store : Bool
  pub log : Bool
  pub secret : String
  pub ttl : ℕ

-- What the handlers read of `*http.Request`: the body as `DecodeJSON` returns it (`none` is its
-- error), the time, and the salt that bcrypt will draw.
pub record Request (Q : Type 0) : Type 0 where
  pub path : String
  pub authorization : String
  pub path_value : String → String
  pub body : Option Q
  pub origin : Origin
  pub now : ℕ
  pub salt : ℕ

-- `bearerToken`
unfoldable pub bearer_token : String → String
unfolding strip_prefix trim_space
bearer_token header = elim (strip_prefix "Bearer " header) [
  | none ↦ ""
  | some token ↦ trim_space token
]

abbrev pub is_active : Option User → Bool
is_active none = false
is_active (some u) = u.status == "active"

-- The paths that stay open before the first password change.
unfoldable pub always_open : String → Bool
always_open path = path == "/api/password/change" || path == "/api/me" || path == "/api/logout"

module _ {B : Type 0} where
  abbrev pub must_be_active : Option User → Handler Store B User
  must_be_active none = refuse 401 "invalid token"
  must_be_active (some u) = if u.status == "active" then pure u else refuse 401 "invalid token"

module _ {B Q : Type 0} (c : Crypto) (h : AuthHandler) (r : Request Q) where
  -- `RequireUser`, up to the call of `next`.
  unfoldable pub current_user : Handler Store B User
  current_user = do
    guard h.store (reply (error 503 "database is not configured"))
    let raw = bearer_token r.authorization
    guard (not (raw == "")) (reply (error 401 "missing token"))
    claims ← require (reply (error 401 "invalid token")) (parse_token c h.secret r.now raw)
    found ← database (get_by_id claims.user_id)
    user ← must_be_active found
    guard (not user.must_change_password || always_open r.path)
        (reply (error 403 "password change required"))
    pure user

module _ {B Q A : Type 0} (c : Crypto) (h : AuthHandler) (r : Request Q) where
  -- `RequireUser`
  unfoldable pub require_user : (User → Handler Store B A) → Handler Store B A
  unfolding current_user
  require_user next = do user ← current_user c h r; next user

  -- `RequireAdmin`
  unfoldable pub require_admin : (User → Handler Store B A) → Handler Store B A
  unfolding require_user has_role
  require_admin next = require_user λ user. do
    guard (has_role user "platform_admin") (reply (error 403 "Platform admin role required"))
    next user
