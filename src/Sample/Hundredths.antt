-- ===== src/Sample/Hundredths.antt =====
-- Numbers with two decimal places in place of the floating-point ones, and a Prometheus client that
-- takes ASCII texts.
use process_wrapper.Prelude.{
  not, ◌||◌, All, List, ◌+◌, ◌*◌, ◌/◌, ◌≡◌, refl, Bool, true, ◌&&◌, [], ◌∷◌, none, some, Str, ltb,
  arith,
}
use process_wrapper.Prelude.Int.{ℤ, pos, pos_part, neg_part, sub_ℕ, leb_ℤ, ltb_ℤ}
use process_wrapper.Prelude.Decimal.{parse_uint, parse_uint-decimal}
use process_wrapper.Prelude.Float.{Float, IsFloat}
use process_wrapper.Registry.Accepted.{Prometheus, IsPrometheus, IsAscii, all_valid, lowers_counter}

abbrev pub Hundredths : Type 0
Hundredths = ℤ

abbrev product : ℤ → ℤ → ℤ
product a b =
    sub_ℕ ((pos_part a * pos_part b + neg_part a * neg_part b) / 100)
      ((pos_part a * neg_part b + neg_part a * pos_part b) / 100)

-- The divisor is positive.
abbrev quotient : ℤ → ℤ → ℤ
quotient a b = sub_ℕ (pos_part a * 100 / pos_part b) (neg_part a * 100 / pos_part b)

instance abbrev pub hundredths : Float Hundredths
hundredths = record {
  of_nat = λ n. pos (n * 100);
  millionths = λ n. pos (n / 10_000);
  parse_float = λ text. elim (parse_uint text) [ none ↦ none | some n ↦ some (pos (n * 100)) ];
  plus = λ a b. sub_ℕ (pos_part a + pos_part b) (neg_part a + neg_part b);
  minus = λ a b. sub_ℕ (pos_part a + neg_part b) (neg_part a + pos_part b);
  times = product;
  over = quotient;
  eq = λ a b. leb_ℤ a b && leb_ℤ b a;
  lt = ltb_ℤ;
}

pub hundredths-IsFloat : IsFloat Hundredths
hundredths-IsFloat = record {
  lt-minus = λ a b. ground arith;
  parse_float-decimal = λ n h. rw (hundredths, parse_uint-decimal n) refl;
}

abbrev all_ascii : Str → Bool
all_ascii [] = true
all_ascii (c ∷ text) = ltb c 128 && all_ascii text

abbrev pub client : Prometheus Hundredths
client = record {
  valid = all_ascii;
  panics = λ u. not (all_valid all_ascii u.values) || lowers_counter u.collector.kind u.change;
}

all_valid-All :
    (texts : List Str)
    → All (λ text. all_ascii text ≡ true) texts
    → all_valid all_ascii texts ≡ true
all_valid-All [] h = refl
all_valid-All (text ∷ texts) h = rw (h.0, all_valid-All texts h.1) refl

all_ascii-IsAscii : (text : Str) → IsAscii text → all_ascii text ≡ true
all_ascii-IsAscii [] h = refl
all_ascii-IsAscii (c ∷ text) h = ground (arith, all_ascii-IsAscii text h.1)

pub client-IsPrometheus : IsPrometheus client
client-IsPrometheus = record {
  valid_ascii = all_ascii-IsAscii;
  panics-invalid = λ u l v. rw v refl;
  panics-lowers_counter = λ u l v h. rw (all_valid-All u.values v) refl;
}
