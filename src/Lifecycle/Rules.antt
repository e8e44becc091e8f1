-- ===== src/Lifecycle/Rules.antt =====
-- internal/lifecycle/store.go and validate.go: a rule, and the tests on its fields.
use osspilot_ops_api.Common.{ℕ, zero, suc, ltb, String, Bool, Option, none, some, if◌then◌else◌}
use osspilot_ops_api.Common.Int.{ℤ, pos, negsuc}
use osspilot_ops_api.Action.{Result, ok, err}

pub record Rule : Type 0 where
  pub id : ℕ
  pub bucket_id : ℕ
  pub bucket_name : String
  pub tenant_id : ℕ
  pub prefix : String
  pub enabled : Bool
  pub delete_after_days : Option ℤ
  pub cleanup_trash_after_days : Option ℤ
  pub cleanup_versions_after_days : Option ℤ
  pub cleanup_multipart_after_days : Option ℤ
  pub created_at : ℕ
  pub updated_at : ℕ

-- `requireAction`
unfoldable pub require_action : Option ℤ → Option ℤ → Option ℤ → Option ℤ → Result String (Unit {0})
require_action none none none none = err "At least one lifecycle action must be configured"
require_action _ _ _ _ = ok tt

-- `validDays`
unfoldable pub valid_days : Option ℤ → Result String (Unit {0})
valid_days none = ok tt
valid_days (some (negsuc n)) = err "lifecycle days must be at least 1"
valid_days (some (pos n)) = if ltb n 1 then err "lifecycle days must be at least 1" else ok tt

-- `days != nil && *days > 0`
unfoldable pub positive_days : Option ℤ → Option ℕ
positive_days none = none
positive_days (some (negsuc n)) = none
positive_days (some (pos zero)) = none
positive_days (some (pos (suc n))) = some (suc n)
