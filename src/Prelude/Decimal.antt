-- ===== src/Prelude/Decimal.antt =====
-- Decimal numerals: `fmt.Sprintf("%v", n)` of a natural number, and `strconv.ParseInt(s, 10, 64)`.
use Prim.Native.Nat.{ℕ, zero, suc, ◌+◌, ◌-◌, ◌*◌, ◌/◌, ◌%◌, ◌<◌}
use mathlib.Core.Path.{◌≡◌, refl, sym, ap, ◌∙◌}
use mathlib.Core.Bool.{Bool, true, false, ◌&&◌}
use mathlib.Core.Option.{Option, none, some}
use mathlib.Core.List.{[], ◌∷◌}
use mathlib.Core.Logic.{inl, inr}
use native.Mathlib.Nat.{zero-add}
use native.Mathlib.Omega.{arith}
use process_wrapper.Prelude.Tests.{ltb, leb, ◌==◌, if◌then◌else◌, Bool-cases}
use process_wrapper.Prelude.Text.{Str}
use process_wrapper.Prelude.Int.{ℤ, pos, negsuc, sub_ℕ}

unfoldable pub digits_onto : ℕ → ℕ → Str → Str
digits_onto zero n rest = rest
digits_onto (suc fuel) n rest =
    let more = digits_onto fuel (n / 10) ((b'0' + n % 10) ∷ rest) in
    if ltb n 10 then (b'0' + n) ∷ rest else more

-- A number has fewer digits than its successor counts.
unfoldable pub decimal : ℕ → Str
unfolding digits_onto
decimal n = digits_onto (suc n) n []

abbrev pub is_digit : ℕ → Bool
is_digit c = leb b'0' c && leb c b'9'

unfoldable pub read_digits : ℕ → Str → Option ℕ
read_digits v [] = some v
read_digits v (c ∷ s) =
    let rest = read_digits (v * 10 + (c - b'0')) s in if is_digit c then rest else none

-- One digit at least.
unfoldable pub parse_uint : Str → Option ℕ
unfolding read_digits
parse_uint [] = none
parse_uint (c ∷ s) = read_digits 0 (c ∷ s)

abbrev pub int64_min_size : ℕ
int64_min_size = 9223372036854775808

-- The value and whether it is free of error: a value out of the range of `int64` is cut off at its
-- end, a text that is no numeral gives 0.
abbrev pub in_range : Bool → Option ℕ → ℤ × Bool
in_range negative none = (pos 0, false)
in_range false (some n) =
    if ltb n int64_min_size then (pos n, true) else (pos (int64_min_size - 1), false)
in_range true (some n) =
    if leb n int64_min_size then (sub_ℕ 0 n, true) else (negsuc (int64_min_size - 1), false)

-- `strconv.ParseInt(s, 10, 64)`
unfoldable pub parse_int : Str → ℤ × Bool
unfolding parse_uint
parse_int [] = (pos 0, false)
parse_int (c ∷ s) =
    if c == b'+'
    then in_range false (parse_uint s)
    else if c == b'-'
    then in_range true (parse_uint s)
    else in_range false (parse_uint (c ∷ s))

read_digits-digits_onto :
    (fuel n : ℕ) (rest : Str)
    → n < fuel
    → read_digits 0 (digits_onto fuel n rest) ≡ read_digits n rest
unfolding digits_onto read_digits
read_digits-digits_onto zero n rest h = absurd (omega arith)
read_digits-digits_onto (suc fuel) n rest h = elim (Bool-cases (ltb n 10)) [
  | inl small ↦
      let d : is_digit (b'0' + n) ≡ true = ground arith in
      let e : b'0' + n - b'0' ≡ n = omega arith in rw (small, d, e, zero-add)
  | inr large ↦
      let d : is_digit (b'0' + n % 10) ≡ true = ground arith in
      let e : n / 10 * 10 + (b'0' + n % 10 - b'0') ≡ n = omega arith in
      rw large
        (read_digits-digits_onto fuel (n / 10) ((b'0' + n % 10) ∷ rest) (ground arith) ∙ rw (d, e))
]

-- A text that begins with a digit.
abbrev StartsWithDigit : Str → Type 0
StartsWithDigit [] = ⊥
StartsWithDigit (c ∷ s) = is_digit c ≡ true

digits_onto-StartsWithDigit :
    (fuel n : ℕ) (rest : Str) → n < fuel → StartsWithDigit (digits_onto fuel n rest)
unfolding digits_onto
digits_onto-StartsWithDigit zero n rest h = absurd (omega arith)
digits_onto-StartsWithDigit (suc fuel) n rest h = elim (Bool-cases (ltb n 10)) [
  | inl small ↦ rw small (ground arith)
  | inr large ↦
      rw large (digits_onto-StartsWithDigit fuel (n / 10) ((b'0' + n % 10) ∷ rest) (ground arith))
]

parse_uint-read_digits : (s : Str) → StartsWithDigit s → parse_uint s ≡ read_digits 0 s
unfolding parse_uint
parse_uint-read_digits [] h = absurd h
parse_uint-read_digits (c ∷ s) h = refl

parse_int-parse_uint : (s : Str) → StartsWithDigit s → parse_int s ≡ in_range false (parse_uint s)
unfolding parse_int
parse_int-parse_uint [] h = absurd h
parse_int-parse_uint (c ∷ s) h = ground arith

-- Reading a decimal numeral gives the number back.
pub parse_uint-decimal : (n : ℕ) → parse_uint (decimal n) ≡ some n
unfolding decimal
parse_uint-decimal n =
    parse_uint-read_digits _ (digits_onto-StartsWithDigit (suc n) n [] (omega arith))
    ∙ read_digits-digits_onto (suc n) n [] (omega arith)
    ∙ unfold read_digits in refl

pub parse_int-decimal : (n : ℕ) → n < int64_min_size → parse_int (decimal n) ≡ (pos n, true)
parse_int-decimal n h =
    parse_int-parse_uint (decimal n)
      (unfold decimal in digits_onto-StartsWithDigit (suc n) n [] (omega arith))
    ∙ ap (in_range false) (parse_uint-decimal n)
    ∙ ground arith

pub decimal-injective : (a b : ℕ) → decimal a ≡ decimal b → a ≡ b
decimal-injective a b e =
    let same = sym (parse_uint-decimal a) ∙ ap parse_uint e ∙ parse_uint-decimal b in cc
