-- ===== src/Common/Strings.antt =====
-- Go's `sort.Strings` and `strings.Join`.
use Prim.Native.Nat.{Ordering}
use Prim.Native.String
use Prim.Native.String.{String, compare}
use mathlib.Core.Bool.{Bool, true, false}
use mathlib.Core.List.{List, [], ◌∷◌}
use osspilot_ops_api.Common.Tests.{if◌then◌else◌}

-- Go compares strings by their bytes, which is the order of their code points.
unfoldable pub str_leb : String → String → Bool
str_leb s t = elim (compare s t) [ Ordering.gt ↦ false | _ ↦ true ]

insert_sorted : String → List String → List String
insert_sorted x [] = x ∷ []
insert_sorted x (y ∷ ys) =
    let later = y ∷ insert_sorted x ys in if str_leb x y then x ∷ y ∷ ys else later

-- `sort.Strings`
unfoldable pub sort_strings : List String → List String
unfolding insert_sorted str_leb
sort_strings [] = []
sort_strings (x ∷ xs) = insert_sorted x (sort_strings xs)

-- `strings.Join`
unfoldable pub join : List String → String → String
join [] sep = ""
join (x ∷ []) sep = x
join (x ∷ y ∷ ys) sep = String.◌++◌ x (String.◌++◌ sep (join (y ∷ ys) sep))
