-- ===== src/Common/Text.antt =====
-- Go's `strings` functions that the program uses, over the code points of a text.
use Prim.Native.Char.{code}
use Prim.Native.String.{String, [], ◌∷◌}
use Prim.Native.Nat.{ℕ}
use mathlib.Core.Bool.{Bool, true, false, ◌&&◌, ◌||◌}
use mathlib.Core.Option.{Option, none, some}
use Prim.Native.String
use mathlib.Core.Path.{◌≡◌}
use native.Mathlib.Omega.{arith}
use text.Mathlib.TextLemmas.{nil-append, cons-append}
use text.Mathlib.Text.{◌==◌}
use osspilot_ops_api.Common.Tests.{leb, eqb, if◌then◌else◌}

-- `unicode.IsSpace`
unfoldable pub is_space : ℕ → Bool
is_space c =
    leb 9 c && leb c 13
    || eqb c 32
    || eqb c 0x85
    || eqb c 0xa0
    || eqb c 0x1680
    || leb 0x2000 c && leb c 0x200a
    || eqb c 0x2028
    || eqb c 0x2029
    || eqb c 0x202f
    || eqb c 0x205f
    || eqb c 0x3000

-- Drops the leading code points that pass a test.
unfoldable pub trim_left : (ℕ → Bool) → String → String
trim_left p [] = ""
trim_left p (◌∷◌ c s) = let rest = trim_left p s in if p (code c) then rest else ◌∷◌ c s

-- Drops the trailing code points that pass a test.
unfoldable pub trim_right : (ℕ → Bool) → String → String
trim_right p [] = ""
trim_right p (◌∷◌ c s) =
    let rest = trim_right p s in if p (code c) && rest == "" then "" else ◌∷◌ c rest

-- `strings.TrimSpace`
unfoldable pub trim_space : String → String
unfolding trim_left trim_right is_space
trim_space s = trim_right is_space (trim_left is_space s)

-- What follows a prefix: `strings.HasPrefix` with the slice behind it.
unfoldable pub strip_prefix : String → String → Option String
strip_prefix [] s = some s
strip_prefix (◌∷◌ p ps) [] = none
strip_prefix (◌∷◌ p ps) (◌∷◌ c s) =
    let rest = strip_prefix ps s in if eqb (code p) (code c) then rest else none

-- `strings.HasPrefix`
unfoldable pub has_prefix : String → String → Bool
unfolding strip_prefix
has_prefix s p = elim (strip_prefix p s) [ none ↦ false | some _ ↦ true ]

pub strip_prefix-append : (p s : String) → strip_prefix p (String.◌++◌ p s) ≡ some s
unfolding strip_prefix
strip_prefix-append [] s = rw nil-append
strip_prefix-append (◌∷◌ c p) s = rw cons-append (ground (arith, strip_prefix-append p s))

-- `strings.Contains`
unfoldable pub contains : String → String → Bool
unfolding has_prefix
contains [] p = p == ""
contains (◌∷◌ c s) p = let rest = contains s p in has_prefix (◌∷◌ c s) p || rest
