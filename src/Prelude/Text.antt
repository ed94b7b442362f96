-- ===== src/Prelude/Text.antt =====
-- Go strings as lists of bytes, and what the sources use of the package `strings`.
use Prim.Native.Nat.{ℕ}
use Prim.Native.Char.{code}
use Prim.Native.String.{String}
use mathlib.Core.Path.{◌≡◌, refl}
use mathlib.Core.Logic.{◌↔◌, ◌≢◌}
use mathlib.Core.Bool.{Bool, true, false, ◌&&◌, ◌||◌}
use mathlib.Core.List.{List, [], ◌∷◌}
use native.Mathlib.Omega.{arith}
use process_wrapper.Prelude.Tests.{leb, ◌==◌, if◌then◌else◌}

abbrev pub Str : Type 0
Str = List ℕ

-- The bytes of a literal, which is ASCII throughout.
abbrev pub codes : String → Str
codes String.[] = []
codes (String.◌∷◌ c s) = code c ∷ codes s

-- `==` on strings.
unfoldable pub str_eq : Str → Str → Bool
str_eq [] [] = true
str_eq (x ∷ a) (y ∷ b) = x == y && str_eq a b
str_eq _ _ = false

pub str_eq_iff : (a b : Str) → (str_eq a b ≡ true) ↔ (a ≡ b)
unfolding str_eq
str_eq_iff (x ∷ a) (y ∷ b) = ground (arith, str_eq_iff a b)
str_eq_iff _ _ = ground arith

pub str_eq_refl : (a : Str) → str_eq a a ≡ true
str_eq_refl a = (str_eq_iff a a).1 refl

pub str_ne : (a b : Str) → str_eq a b ≡ false → a ≢ b
str_ne a b h e = let same = (str_eq_iff a b).1 e in cc

-- `len(s) == 0`.
abbrev pub is_empty : Str → Bool
is_empty [] = true
is_empty (c ∷ s) = false

-- The ASCII white space of `unicode.IsSpace`.
abbrev pub is_space : ℕ → Bool
is_space c = (leb 9 c && leb c 13) || c == b' '

-- `strings.TrimLeft` over white space.
unfoldable pub trim_left : Str → Str
trim_left [] = []
trim_left (c ∷ s) = if is_space c then trim_left s else c ∷ s

-- `strings.TrimRight` over white space: a trailing run is dropped.
unfoldable pub trim_right : Str → Str
trim_right [] = []
trim_right (c ∷ s) = let rest = trim_right s in if is_space c && is_empty rest then [] else c ∷ rest

-- `strings.TrimSpace`.
unfoldable pub trim_space : Str → Str
unfolding trim_left trim_right
trim_space s = trim_right (trim_left s)

-- The generic `sliceContains`, at strings.
unfoldable pub slice_contains : List Str → Str → Bool
unfolding str_eq
slice_contains [] e = false
slice_contains (v ∷ s) e = let rest = slice_contains s e in if str_eq v e then true else rest

abbrev pub prefix_first : ℕ → List Str → List Str
prefix_first c [] = (c ∷ []) ∷ []
prefix_first c (part ∷ parts) = (c ∷ part) ∷ parts

-- `strings.Split` at a separator of one byte.
unfoldable pub split : ℕ → Str → List Str
split sep [] = [] ∷ []
split sep (c ∷ s) = let rest = split sep s in if c == sep then [] ∷ rest else prefix_first c rest

-- `strings.Contains` of one byte.
unfoldable pub contains_byte : ℕ → Str → Bool
contains_byte sep [] = false
contains_byte sep (c ∷ s) = let rest = contains_byte sep s in if c == sep then true else rest

abbrev pub has_prefix : Str → Str → Bool
has_prefix [] text = true
has_prefix (c ∷ p) [] = false
has_prefix (c ∷ p) (d ∷ text) = let rest = has_prefix p text in if c == d then rest else false

-- `strings.Contains`
unfoldable pub contains_text : Str → Str → Bool
contains_text part [] = has_prefix part []
contains_text part (c ∷ text) = has_prefix part (c ∷ text) || contains_text part text
