-- ===== src/Schedule/Names.antt =====
-- Scheduled commands have distinct names, by which every map of `State` is keyed
-- (`NewSchedule`, pkg/process/process.go).
use process_wrapper.Prelude.{
  ℕ, zero, suc, ◌+◌, ◌<◌, ◌≡◌, ◌≢◌, refl, sym, ap, ◌∙◌, ◌⊎◌, inl, inr, List, [], ◌∷◌, ◌++◌, Str,
  slice_contains, arith, All, All-append, Bool-cases,
}
use process_wrapper.Prelude.Int.{ℤ, pos, negsuc}
use process_wrapper.Prelude.Decimal.{decimal, decimal-injective}
use process_wrapper.Command.{Command}
use process_wrapper.Schedule.{replica_name, replicas_from, expand, schedule}

-- A name with no underscore.
abbrev pub IsPlain : Str → Type 0
IsPlain k = All (λ c. c ≢ b'_') k

split_unique :
    (k j v w : Str) → IsPlain k → IsPlain j → k ++ (b'_' ∷ v) ≡ j ++ (b'_' ∷ w) → (k ≡ j) × (v ≡ w)
split_unique [] [] v w hk hj e = (refl, cc)
split_unique [] (d ∷ j) v w hk hj e = ground arith
split_unique (c ∷ k) [] v w hk hj e = ground arith
split_unique (c ∷ k) (d ∷ j) v w hk hj e = ground (arith, split_unique k j v w hk.1 hj.1)

replica_name-injective :
    (k j : Str) (r q : ℕ)
    → IsPlain k
    → IsPlain j
    → replica_name k r ≡ replica_name j q
    → (k ≡ j) × (r ≡ q)
unfolding replica_name
replica_name-injective k j r q hk hj e =
    let (same, digits) = split_unique k j (decimal r) (decimal q) hk hj e in
    (same, decimal-injective r q digits)

pub plain-ne-replica_name : (k j : Str) (r : ℕ) → IsPlain k → k ≢ replica_name j r
unfolding replica_name
plain-ne-replica_name [] [] r h e = cc
plain-ne-replica_name [] (d ∷ j) r h e = cc
plain-ne-replica_name (c ∷ k) [] r h e = ground arith
plain-ne-replica_name (c ∷ k) (d ∷ j) r h e = ground (arith, plain-ne-replica_name k j r h.1)

-- How a scheduled name comes from the name of a configured command.
abbrev pub Origin : Str → Str → Type 0
Origin k x = (x ≡ k) ⊎ ((r : ℕ) × (x ≡ replica_name k r))

Origin-ne : (k j x y : Str) → IsPlain k → IsPlain j → k ≢ j → Origin k x → Origin j y → x ≢ y
Origin-ne k j x y hk hj ne (inl a) (inl b) e = ne (sym a ∙ e ∙ b)
Origin-ne k j x y hk hj ne (inl a) (inr (q, b)) e = plain-ne-replica_name k j q hk (sym a ∙ e ∙ b)
Origin-ne k j x y hk hj ne (inr (r, a)) (inl b) e =
    plain-ne-replica_name j k r hj (sym b ∙ sym e ∙ a)
Origin-ne k j x y hk hj ne (inr (r, a)) (inr (q, b)) e =
    ne (replica_name-injective k j r q hk hj (sym a ∙ e ∙ b)).0

abbrev pub names : List Command → List Str
names [] = []
names (c ∷ cs) = c.name ∷ names cs

pub names-append : (xs ys : List Command) → names (xs ++ ys) ≡ names xs ++ names ys
names-append [] ys = refl
names-append (x ∷ xs) ys = ap (◌∷◌ x.name) (names-append xs ys)

replicas_from-Origin : (c : Command) (r n : ℕ) → All (Origin c.name) (names (replicas_from c r n))
unfolding replicas_from
replicas_from-Origin c r zero = tt
replicas_from-Origin c r (suc n) = (inr (r, refl), replicas_from-Origin c (r + 1) n)

pub expand-Origin : (c : Command) (z : ℤ) → All (Origin c.name) (names (expand c z))
expand-Origin c (pos zero) = (inl refl, tt)
expand-Origin c (pos (suc n)) = replicas_from-Origin c 0 (suc n)
expand-Origin c (negsuc n) = (inl refl, tt)

-- Pairwise different elements.
abbrev pub IsDistinct : List Str → Type 0
IsDistinct [] = Unit
IsDistinct (x ∷ xs) = All (λ y. x ≢ y) xs × IsDistinct xs

IsDistinct-append :
    (xs ys : List Str)
    → IsDistinct xs
    → IsDistinct ys
    → All (λ x. All (λ y. x ≢ y) ys) xs
    → IsDistinct (xs ++ ys)
IsDistinct-append [] ys hx hy h = hy
IsDistinct-append (x ∷ xs) ys hx hy h =
    (All-append (λ y. x ≢ y) xs ys hx.0 h.0, IsDistinct-append xs ys hx.1 hy h.1)

replicas_from-later :
    (c : Command) (q r n : ℕ)
    → IsPlain c.name
    → q < r
    → All (λ y. replica_name c.name q ≢ y) (names (replicas_from c r n))
unfolding replicas_from
replicas_from-later c q r zero h lt = tt
replicas_from-later c q r (suc n) h lt = (
  (λ e. let same = (replica_name-injective c.name c.name q r h h e).1 in omega arith),
  replicas_from-later c q (r + 1) n h (omega arith),
)

replicas_from-IsDistinct :
    (c : Command) (r n : ℕ) → IsPlain c.name → IsDistinct (names (replicas_from c r n))
unfolding replicas_from
replicas_from-IsDistinct c r zero h = tt
replicas_from-IsDistinct c r (suc n) h =
    (replicas_from-later c r (r + 1) n h (omega arith), replicas_from-IsDistinct c (r + 1) n h)

expand-IsDistinct : (c : Command) (z : ℤ) → IsPlain c.name → IsDistinct (names (expand c z))
expand-IsDistinct c (pos zero) h = (tt, tt)
expand-IsDistinct c (pos (suc n)) h = replicas_from-IsDistinct c 0 (suc n) h
expand-IsDistinct c (negsuc n) h = (tt, tt)

pub All-ne-Origin :
    (k j x : Str) (ys : List Str)
    → IsPlain k
    → IsPlain j
    → k ≢ j
    → Origin k x
    → All (Origin j) ys
    → All (λ y. x ≢ y) ys
All-ne-Origin k j x [] hk hj ne o h = tt
All-ne-Origin k j x (y ∷ ys) hk hj ne o h =
    (Origin-ne k j x y hk hj ne o h.0, All-ne-Origin k j x ys hk hj ne o h.1)

pub schedule-ne :
    (skip : List Str) (cs : List Command) (k x : Str)
    → IsPlain k
    → All IsPlain (names cs)
    → All (λ j. k ≢ j) (names cs)
    → Origin k x
    → All (λ y. x ≢ y) (names (schedule skip cs))
unfolding schedule
schedule-ne skip [] k x hk hp hn o = tt
schedule-ne skip (c ∷ cs) k x hk hp hn o = elim (Bool-cases (slice_contains skip c.name)) [
  | inl skipped ↦ rw skipped (schedule-ne skip cs k x hk hp.1 hn.1 o)
  | inr kept ↦
      rw (kept, names-append)
        (All-append (λ y. x ≢ y) (names (expand c c.replicas)) (names (schedule skip cs))
          (All-ne-Origin k c.name x _ hk hp.0 hn.0 o (expand-Origin c c.replicas))
          (schedule-ne skip cs k x hk hp.1 hn.1 o))
]

Origins-ne :
    (skip : List Str) (cs : List Command) (k : Str) (xs : List Str)
    → IsPlain k
    → All IsPlain (names cs)
    → All (λ j. k ≢ j) (names cs)
    → All (Origin k) xs
    → All (λ x. All (λ y. x ≢ y) (names (schedule skip cs))) xs
Origins-ne skip cs k [] hk hp hn o = tt
Origins-ne skip cs k (x ∷ xs) hk hp hn o =
    (schedule-ne skip cs k x hk hp hn o.0, Origins-ne skip cs k xs hk hp hn o.1)

-- If the configured names are distinct and hold no underscore, then all commands that are started,
-- replicas included, have different names.
pub schedule-IsDistinct :
    (skip : List Str) (cs : List Command)
    → IsDistinct (names cs)
    → All IsPlain (names cs)
    → IsDistinct (names (schedule skip cs))
unfolding schedule
schedule-IsDistinct skip [] d p = tt
schedule-IsDistinct skip (c ∷ cs) d p = elim (Bool-cases (slice_contains skip c.name)) [
  | inl skipped ↦ rw skipped (schedule-IsDistinct skip cs d.1 p.1)
  | inr kept ↦
      rw (kept, names-append)
        (IsDistinct-append (names (expand c c.replicas)) (names (schedule skip cs))
          (expand-IsDistinct c c.replicas p.0) (schedule-IsDistinct skip cs d.1 p.1)
          (Origins-ne skip cs c.name _ p.0 p.1 d.0 (expand-Origin c c.replicas)))
]
