-- ===== src/Auth/Token.antt =====
-- internal/auth/jwt.go
use osspilot_ops_api.Common.{
  ℕ, ◌+◌, String, not, ◌&&◌, Option, none, some, List, ◌==◌, if◌then◌else◌,
}
use osspilot_ops_api.Common.Decimal.{format_ℕ}
use osspilot_ops_api.Crypto.{Crypto, Claims}

abbrev pub portal_ops : String
portal_ops = "ops"

abbrev pub claims_for : ℕ → ℕ → ℕ → List String → Claims
claims_for now ttl user_id roles = record {
  user_id = user_id;
  portal = portal_ops;
  roles = roles;
  subject = format_ℕ user_id;
  issued_at = now;
  expires_at = now + ttl;
}

-- `IssueToken`
unfoldable pub issue_token : Crypto → String → ℕ → ℕ → ℕ → List String → Option String
issue_token c secret ttl now user_id roles = c.sign secret (claims_for now ttl user_id roles)

abbrev check_portal : Claims → Option Claims
check_portal claims =
    if not (claims.portal == "") && not (claims.portal == portal_ops) then none else some claims

-- `ParseToken`
unfoldable pub parse_token : Crypto → String → ℕ → String → Option Claims
parse_token c secret now raw = elim (c.verify secret now raw) [
  | none ↦ none
  | some claims ↦ check_portal claims
]
