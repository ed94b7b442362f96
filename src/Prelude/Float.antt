-- ===== src/Prelude/Float.antt =====
-- The floating-point numbers of Go, `float64`, as far as the program computes with them.
use Prim.Native.Nat.{ℕ, ◌<◌}
use mathlib.Core.Path.{◌≡◌}
use mathlib.Core.Bool.{Bool}
use mathlib.Core.Option.{Option, some}
use process_wrapper.Prelude.Text.{Str}
use process_wrapper.Prelude.Decimal.{decimal}

pub record Float {ℓ} (F : Type ℓ) : Type ℓ where
  -- the number closest to a natural number
  pub of_nat : ℕ → F
  -- the number closest to so many millionths
  pub millionths : ℕ → F
  -- `strconv.ParseFloat(s, 64)`; `none` is an error
  pub parse_float : Str → Option F
  pub plus : F → F → F
  pub minus : F → F → F
  pub times : F → F → F
  pub over : F → F → F
  pub eq : F → F → Bool
  pub lt : F → F → Bool

-- The kernel writes numbers of 64 bits.
abbrev pub word_size : ℕ
word_size = 18446744073709551616

-- A difference is negative if the numbers are in order, which holds for infinite values and NaN too,
-- and a decimal numeral is read as the number closest to it.
pub record IsFloat {ℓ} (F : Type ℓ) ⦃f : Float F⦄ : Type ℓ where
  pub lt-minus : (a b : F) → f.lt (f.minus a b) (f.of_nat 0) ≡ f.lt a b
  pub parse_float-decimal : (n : ℕ) → n < word_size → f.parse_float (decimal n) ≡ some (f.of_nat n)
