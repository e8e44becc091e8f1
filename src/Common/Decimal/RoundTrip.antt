-- ===== src/Common/Decimal/RoundTrip.antt =====
-- What Common.Decimal formats, it reads again, and there is nothing to trim.
use Prim.Native.Char.{Char, code}
use Prim.Native.String
use Prim.Native.String.compare
use Prim.Native.String.{String, [], ◌∷◌, ◌++◌}
use Prim.Native.Nat.{ℕ, zero, suc, ◌+◌, ◌-◌, ◌*◌, ◌/◌, ◌%◌, ◌^◌, ◌≤◌, ◌<◌}
use mathlib.Core.Path.{◌≡◌, refl, ap, ◌∙◌}
use mathlib.Core.Logic.{inl, inr}
use mathlib.Core.Bool.{true, false}
use mathlib.Core.Option.{some}
use native.Mathlib.Omega.{arith}
use text.Mathlib.Text.{◌==◌}
use text.Mathlib.TextLemmas.{nil-append, cons-append}
use osspilot_ops_api.Common.Int.{pos}
use osspilot_ops_api.Common.Tests.{leb, ltb, eqb, Bool-cases, ltb→lt}
use osspilot_ops_api.Common.Text.{is_space, trim_left, trim_right, trim_space}
use osspilot_ops_api.Common.Decimal.{
  digit_text, digits_from, format_from, format_ℕ, parse_ℕ, parse_int, below,
}

-- Digits only
Digits : String → Type 0
Digits [] = Unit
Digits (◌∷◌ c s) = (b'0' ≤ code c) × (code c ≤ b'9') × Digits s

-- The character of a digit
IsDigitOf : ℕ → Char → Type 0
IsDigitOf n c =
    (code c ≡ b'0' + n) × ((acc : String) → digit_text n ++ acc ≡ Prim.Native.String.◌∷◌ c acc)

one_char : (c : Char) (acc : String) → ◌∷◌ c [] ++ acc ≡ Prim.Native.String.◌∷◌ c acc
one_char c acc = rw cons-append (rw nil-append refl)

digit_char : (n : ℕ) → n < 10 → (c : Char) × IsDigitOf n c
unfolding IsDigitOf
digit_char zero h = ("0", (refl, one_char "0"))
digit_char (suc zero) h = ("1", (refl, one_char "1"))
digit_char (suc (suc zero)) h = ("2", (refl, one_char "2"))
digit_char (suc (suc (suc zero))) h = ("3", (refl, one_char "3"))
digit_char (suc (suc (suc (suc zero)))) h = ("4", (refl, one_char "4"))
digit_char (suc (suc (suc (suc (suc zero))))) h = ("5", (refl, one_char "5"))
digit_char (suc (suc (suc (suc (suc (suc zero)))))) h = ("6", (refl, one_char "6"))
digit_char (suc (suc (suc (suc (suc (suc (suc zero))))))) h = ("7", (refl, one_char "7"))
digit_char (suc (suc (suc (suc (suc (suc (suc (suc zero)))))))) h = ("8", (refl, one_char "8"))
digit_char (suc (suc (suc (suc (suc (suc (suc (suc (suc zero))))))))) h =
    ("9", (refl, one_char "9"))
digit_char (suc (suc (suc (suc (suc (suc (suc (suc (suc (suc n)))))))))) h =
    ("9", (omega (arith, h), λ acc. ground (arith, h)))

Digits-digit : (n : ℕ) (acc : String) → n < 10 → Digits acc → Digits (digit_text n ++ acc)
unfolding IsDigitOf Digits
Digits-digit n acc h k =
    let (c, (is, text)) = digit_char n h in
    rw (text acc) (omega (arith, is, h), omega (arith, is, h), k)

digits_from-digit :
    (k n : ℕ) (acc : String)
    → n < 10
    → digits_from k (digit_text n ++ acc) ≡ digits_from (k * 10 + n) acc
unfolding IsDigitOf digits_from
digits_from-digit k n acc h =
    let (c, (is, text)) = digit_char n h in
    let low : leb b'0' (b'0' + n) ≡ true = ground arith in
    let high : leb (b'0' + n) b'9' ≡ true = ground (arith, h) in
    let value : b'0' + n - b'0' ≡ n = omega arith in
    rw (text acc) (rw is (rw low (rw high (rw value refl))))

-- What is formatted is read as the number, whatever follows it.
digits_from-format :
    (fuel n : ℕ) (acc : String)
    → n < fuel
    → digits_from 0 (format_from fuel n acc) ≡ digits_from n acc
unfolding format_from
digits_from-format zero n acc h = ground (arith, h)
digits_from-format (suc fuel) n acc h = elim (Bool-cases (ltb n 10)) [
  | inl small ↦
      let value : 0 * 10 + n ≡ n = omega arith in
      let read = digits_from-digit 0 n acc (ltb→lt n 10 small) in rw small (rw value at read)
  | inr large ↦
      let shorter : n / 10 < fuel = ground (arith, h, large) in
      let last : n % 10 < 10 = omega arith in
      let value : n / 10 * 10 + n % 10 ≡ n = omega arith in
      rw large (
        digits_from-format fuel (n / 10) (digit_text (n % 10) ++ acc) shorter
        ∙ digits_from-digit (n / 10) (n % 10) acc last
        ∙ ap (λ k. digits_from k acc) value)
]

format-Digits : (fuel n : ℕ) (acc : String) → Digits acc → Digits (format_from fuel n acc)
unfolding format_from
format-Digits zero n acc k = k
format-Digits (suc fuel) n acc k =
    let rest =
      format-Digits fuel (n / 10) (digit_text (n % 10) ++ acc)
        (Digits-digit (n % 10) acc (omega arith) k) in
    elim (Bool-cases (ltb n 10)) [
      | inl small ↦ rw small (Digits-digit n acc (ltb→lt n 10 small) k)
      | inr large ↦ rw large rest
    ]

-- Text that starts with a digit
Number : String → Type 0
Number [] = ⊥
Number (◌∷◌ c s) = Digits (◌∷◌ c s)

Number-append : (n : ℕ) (s : String) → n < 10 → Digits s → Number (digit_text n ++ s)
unfolding IsDigitOf Number Digits
Number-append n s h k =
    let (c, (is, text)) = digit_char n h in
    rw (text s) (omega (arith, is, h), omega (arith, is, h), k)

format-Number :
    (fuel n : ℕ) (acc : String) → n < fuel → Digits acc → Number (format_from fuel n acc)
unfolding format_from
format-Number zero n acc h k = ground (arith, h)
format-Number (suc fuel) n acc h k = elim (Bool-cases (ltb n 10)) [
  | inl small ↦ rw small (Number-append n acc (ltb→lt n 10 small) k)
  | inr large ↦ rw large (
      format-Number fuel (n / 10) (digit_text (n % 10) ++ acc) (ground (arith, h, large))
        (Digits-digit (n % 10) acc (omega arith) k))
]

digit-is_space : (c : ℕ) → b'0' ≤ c → c ≤ b'9' → is_space c ≡ false
unfolding is_space
digit-is_space c low high = ground (arith, low, high)

trim_right-Digits : (s : String) → Digits s → trim_right is_space s ≡ s
unfolding trim_right Digits
trim_right-Digits [] k = refl
trim_right-Digits (◌∷◌ c s) k =
    rw (digit-is_space (code c) k.0 k.1)
      (ap (λ x. Prim.Native.String.◌∷◌ c x) (trim_right-Digits s k.2))

trim_left-Number : (s : String) → Number s → trim_left is_space s ≡ s
unfolding trim_left Number Digits
trim_left-Number [] k = refl
trim_left-Number (◌∷◌ c s) k = rw (digit-is_space (code c) k.0 k.1) refl

Number-Digits : (s : String) → Number s → Digits s
unfolding Number Digits
Number-Digits [] k = tt
Number-Digits (◌∷◌ c s) k = k

trim_space-Number : (s : String) → Number s → trim_space s ≡ s
unfolding trim_space
trim_space-Number s k = rw (trim_left-Number s k) (trim_right-Digits s (Number-Digits s k))

parse_int-Number : (s : String) → Number s → parse_int s ≡ below (2 ^ 63) pos (parse_ℕ s)
unfolding parse_int Number Digits
parse_int-Number [] k = ground (arith, k)
parse_int-Number (◌∷◌ c s) k =
    let plus : eqb (code c) b'+' ≡ false = ground (arith, k.0) in
    let minus : eqb (code c) b'-' ≡ false = ground (arith, k.0) in rw minus (rw plus refl)

format_ℕ-Number : (n : ℕ) → Number (format_ℕ n)
unfolding format_ℕ Digits
format_ℕ-Number n = format-Number (suc n) n "" (omega arith) tt

-- Formatting writes nothing that trimming takes away.
pub trim_space-format_ℕ : (n : ℕ) → trim_space (format_ℕ n) ≡ format_ℕ n
trim_space-format_ℕ n = trim_space-Number _ (format_ℕ-Number n)

not_empty : (s : String) → Number s → (s == "") ≡ false
unfolding Number
not_empty [] k = ground (arith, k)
not_empty (◌∷◌ c s) k = rw (compare.cons-nil c s) refl

parse_ℕ-format_ℕ : (n : ℕ) → parse_ℕ (format_ℕ n) ≡ some n
unfolding parse_ℕ format_ℕ digits_from
parse_ℕ-format_ℕ n =
    rw (not_empty (format_ℕ n) (format_ℕ-Number n)) (digits_from-format (suc n) n "" (omega arith))

-- What `strconv.FormatInt` writes of an int64 that is not negative, `strconv.ParseInt` reads.
pub parse_int-format_ℕ : (n : ℕ) → n < 2 ^ 63 → parse_int (format_ℕ n) ≡ some (pos n)
parse_int-format_ℕ n h =
    let fits : ltb n (2 ^ 63) ≡ true = ground (arith, h) in
    rw (parse_int-Number _ (format_ℕ-Number n)) (rw (parse_ℕ-format_ℕ n) (rw fits refl))
