-- ===== src/Users/Roles.antt =====
-- internal/users/role.go
use Prim.Native.String
use osspilot_ops_api.Common.{
  String, Bool, not, ◌&&◌, ◌||◌, List, [], ◌∷◌, ◌++◌, any, ◌==◌, if◌then◌else◌,
}
use osspilot_ops_api.Common.Text.{trim_space}
use osspilot_ops_api.Common.Strings.{sort_strings, join}
use osspilot_ops_api.Action.{Result, ok, err}

abbrev pub role_admin : String
role_admin = "platform_admin"

abbrev pub role_operator : String
role_operator = "ops_operator"

-- The variables of the loop; `seen` is the set of the map's keys, each once.
pub record Scan : Type 0 where
  pub invalid : List String
  pub seen : List String

abbrev pub is_role : String → Bool
is_role n = n == role_admin || n == role_operator

unfoldable pub add_role : String → Scan → Scan
add_role n s =
    if n == ""
    then s
    else if not (n == role_admin) && not (n == role_operator)
    then record s { invalid = s.invalid ++ n ∷ [] }
    else if any (λ x. x == n) s.seen
    then s
    else record s { seen = n ∷ s.seen }

unfoldable pub scan_roles : List String → Scan → Scan
unfolding add_role
scan_roles [] s = s
scan_roles (n ∷ names) s = scan_roles names (add_role (trim_space n) s)

abbrev collect : Scan → Result String (List String)
collect s = elim s.invalid [
  | [] ↦ ok (sort_strings s.seen)
  | x ∷ xs ↦ err (String.◌++◌ "Invalid ops role(s): " (join (sort_strings (x ∷ xs)) ", "))
]

-- `normalizeRoles`
unfoldable pub normalize_roles : List String → Result String (List String)
unfolding scan_roles
normalize_roles names = collect (scan_roles names (record { invalid = []; seen = [] }))
