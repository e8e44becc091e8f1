-- ===== src/Common/Decimal.antt =====
-- Decimal text, as `strconv.FormatInt` writes and `strconv.ParseInt(s, 10, 64)` reads it.
pub mod RoundTrip
use Prim.Native.Char.{code}
use Prim.Native.String.{String, [], ◌∷◌, ◌++◌}
use Prim.Native.Nat.{ℕ, zero, suc, ◌+◌, ◌-◌, ◌*◌, ◌/◌, ◌%◌, ◌^◌}
use mathlib.Core.Bool.{◌&&◌}
use mathlib.Core.Option.{Option, none, some}
use text.Mathlib.Text.{◌==◌}
use osspilot_ops_api.Common.Int.{ℤ, pos, negsuc}
use osspilot_ops_api.Common.Tests.{leb, ltb, eqb, if◌then◌else◌}

abbrev pub digit_text : ℕ → String
digit_text zero = "0"
digit_text (suc zero) = "1"
digit_text (suc (suc zero)) = "2"
digit_text (suc (suc (suc zero))) = "3"
digit_text (suc (suc (suc (suc zero)))) = "4"
digit_text (suc (suc (suc (suc (suc zero))))) = "5"
digit_text (suc (suc (suc (suc (suc (suc zero)))))) = "6"
digit_text (suc (suc (suc (suc (suc (suc (suc zero))))))) = "7"
digit_text (suc (suc (suc (suc (suc (suc (suc (suc zero)))))))) = "8"
digit_text _ = "9"

-- Each round drops a digit, so a fuel above the number is enough.
unfoldable pub format_from : ℕ → ℕ → String → String
format_from zero n acc = acc
format_from (suc fuel) n acc =
    let rest = format_from fuel (n / 10) (digit_text (n % 10) ++ acc) in
    if ltb n 10 then digit_text n ++ acc else rest

-- `strconv.FormatInt(n, 10)` at n ≥ 0
unfoldable pub format_ℕ : ℕ → String
unfolding format_from
format_ℕ n = format_from (suc n) n ""

-- `strconv.FormatInt(n, 10)`
unfoldable pub format_int : ℤ → String
unfolding format_ℕ
format_int (pos n) = format_ℕ n
format_int (negsuc n) = "-" ++ format_ℕ (suc n)

unfoldable pub digits_from : ℕ → String → Option ℕ
digits_from acc [] = some acc
digits_from acc (◌∷◌ c s) =
    let rest = digits_from (acc * 10 + (code c - b'0')) s in
    if leb b'0' (code c) && leb (code c) b'9' then rest else none

-- The digits of a number, at least one.
unfoldable pub parse_ℕ : String → Option ℕ
unfolding digits_from
parse_ℕ s = if s == "" then none else digits_from 0 s

abbrev pub below : ℕ → (ℕ → ℤ) → Option ℕ → Option ℤ
below limit f none = none
below limit f (some n) = if ltb n limit then some (f n) else none

-- -n
abbrev negated : ℕ → ℤ
negated zero = pos 0
negated (suc n) = negsuc n

-- `strconv.ParseInt(s, 10, 64)`: an optional sign, at least one digit, and the range of int64.
unfoldable pub parse_int : String → Option ℤ
unfolding parse_ℕ
parse_int [] = none
parse_int (◌∷◌ c s) =
    if eqb (code c) b'-'
    then below (2 ^ 63 + 1) negated (parse_ℕ s)
    else if eqb (code c) b'+'
    then below (2 ^ 63) pos (parse_ℕ s)
    else below (2 ^ 63) pos (parse_ℕ (◌∷◌ c s))

-- `id, err := strconv.ParseInt(s, 10, 64)` where `err != nil || id < 1` is refused.
unfoldable pub parse_id : String → Option ℕ
unfolding parse_int
parse_id s = elim (parse_int s) [
  | none ↦ none
  | some n ↦ elim n [ pos k ↦ (if ltb k 1 then none else some k) | negsuc k ↦ none ]
]
