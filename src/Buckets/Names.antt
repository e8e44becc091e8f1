-- ===== src/Buckets/Names.antt =====
-- internal/buckets/name.go: the names that buckets may have.
use Prim.Native.Char.{code}
use Prim.Native.String.{String, [], ◌∷◌, count}
use osspilot_ops_api.Common.{
  ℕ, eqb, leb, Bool, false, not, ◌&&◌, ◌||◌, ◌==◌, if◌then◌else◌, Option, none, some,
}
use osspilot_ops_api.Common.Text.{contains}

-- [a-z0-9]
unfoldable pub is_alnum : ℕ → Bool
is_alnum c = leb b'a' c && leb c b'z' || leb b'0' c && leb c b'9'

-- [a-z0-9.-]
unfoldable pub is_name_char : ℕ → Bool
unfolding is_alnum
is_name_char c = is_alnum c || eqb c b'.' || eqb c b'-'

-- [a-z0-9.-]*[a-z0-9]
unfoldable pub tail_matches : String → Bool
unfolding is_alnum is_name_char
tail_matches [] = false
tail_matches (◌∷◌ c s) =
    let rest = tail_matches s in
    if s == "" then is_alnum (code c) else is_name_char (code c) && rest

-- `nameRE`: the class in the middle has 1 to 61 characters.
unfoldable pub name_matches : String → Bool
unfolding is_alnum tail_matches
name_matches [] = false
name_matches (◌∷◌ c s) = is_alnum (code c) && tail_matches s && leb 2 (count s) && leb (count s) 62

unfoldable pub bad_sequence : String → Bool
unfolding contains
bad_sequence name = contains name ".." || contains name ".-" || contains name "-."

-- `validateName`: the text of its error
unfoldable pub validate_name : String → Option String
unfolding name_matches bad_sequence
validate_name name =
    if not (name_matches name)
    then some "bucket_name must be 3-63 lowercase letters, numbers, dots, or hyphens"
    else if bad_sequence name
    then some "bucket_name contains invalid character sequences"
    else none
