-- ===== src/Stats/Columns.antt =====
-- `Stat` on a line of /proc/<pid>/stat (pkg/stat/stat.go).
use process_wrapper.Prelude.{
  ◌∙◌, contains_byte, ◌==◌, ℕ, ◌≤◌, ◌<◌, ◌≡◌, refl, ap, false, List, [], ◌∷◌, ◌++◌, some, Str,
  codes, arith, All, length, split, ltb,
}
use process_wrapper.Prelude.Float.{Float, IsFloat, word_size}
use process_wrapper.Prelude.Decimal.{decimal}
use process_wrapper.Stats.{ProcStat, Measured, after_paren, to_number, column, measured, stat}

abbrev pub Lacks : ℕ → Str → Type 0
Lacks sep text = contains_byte sep text ≡ false

-- The fields behind the name of the program, a blank before each.
abbrev pub join_fields : List Str → Str
join_fields [] = []
join_fields (field ∷ fields) = b' ' ∷ (field ++ join_fields fields)

-- A line of the file: the pid, the name of the program in parentheses, and the other fields.
abbrev pub stat_line : Str → Str → List Str → Str
stat_line pid program fields = (pid ++ (codes " (" ++ program)) ++ (b')' ∷ join_fields fields)

after_paren-append :
    (before rest : Str) → Lacks b')' before → after_paren (before ++ (b')' ∷ rest)) ≡ some rest
unfolding after_paren contains_byte
after_paren-append [] rest h = refl
after_paren-append (c ∷ before) rest h =
    let more : contains_byte b')' before ≡ false = ground arith in
    ground (arith, after_paren-append before rest more)

Lacks-append : (sep : ℕ) (a b : Str) → Lacks sep a → Lacks sep b → Lacks sep (a ++ b)
unfolding contains_byte
Lacks-append sep [] b ha hb = hb
Lacks-append sep (c ∷ a) b ha hb =
    let more : contains_byte sep a ≡ false = ground arith in
    ground (arith, Lacks-append sep a b more hb)

split-append :
    (sep : ℕ) (field rest : Str) (parts : List Str)
    → Lacks sep field
    → split sep rest ≡ [] ∷ parts
    → split sep (field ++ rest) ≡ field ∷ parts
unfolding split contains_byte
split-append sep [] rest parts h e = e
split-append sep (c ∷ field) rest parts h e =
    let fewer : contains_byte sep field ≡ false = ground arith in
    let differs : (c == sep) ≡ false = ground arith in
    rw (differs, split-append sep field rest parts fewer e)

split-join_fields :
    (fields : List Str) → All (Lacks b' ') fields → split b' ' (join_fields fields) ≡ [] ∷ fields
unfolding split
split-join_fields [] h = refl
split-join_fields (field ∷ fields) h =
    ap (λ parts. [] ∷ parts)
      (split-append b' ' field (join_fields fields) fields h.0 (split-join_fields fields h.1))

module _ {ℓ} {F : Type ℓ} ⦃f : Float F⦄ where
  -- What `Stat` makes of the user time, the system time and the resident pages.
  abbrev pub expected : ProcStat F → ℕ → ℕ → ℕ → Measured F
  expected s user system pages =
      let cpu = f.over (f.plus (f.of_nat user) (f.of_nat system)) s.clktck in
      record {
        cpu = cpu;
        delta = f.minus cpu s.cpu_seconds;
        memory = f.times (f.of_nat pages) s.page;
      }

  to_number-decimal : (n : ℕ) → IsFloat F → n < word_size → to_number (decimal n) ≡ f.of_nat n
  unfolding to_number
  to_number-decimal n laws h = rw (to_number, laws.parse_float-decimal n h) refl

  measured-expected :
      (s : ProcStat F) (columns : List Str) (user system pages : ℕ)
      → IsFloat F
      → column 12 columns ≡ decimal user
      → column 13 columns ≡ decimal system
      → column 22 columns ≡ decimal pages
      → user < word_size
      → system < word_size
      → pages < word_size
      → measured s columns ≡ expected s user system pages
  unfolding measured
  measured-expected s columns user system pages laws u v w hu hv hw =
      rw
        (
          u,
          v,
          w,
          to_number-decimal user laws hu,
          to_number-decimal system laws hv,
          to_number-decimal pages laws hw,
        )
        refl

  stat-columns :
      (s : ProcStat F) (text rest : Str) (columns : List Str)
      → after_paren text ≡ some rest
      → split b' ' rest ≡ columns
      → ltb (length columns) 23 ≡ false
      → stat (some text) s
        ≡ (some (measured s columns), record s { cpu_seconds = (measured s columns).cpu })
  unfolding stat
  stat-columns s text rest columns cut parts enough = cc

  -- On a line with the 22 fields that the kernel writes behind the name, `Stat` returns the user and
  -- the system time together in seconds, the change since its last call, and the resident pages in
  -- bytes, and it keeps the time for its next call, if the name of the program holds no `)`.
  pub stat-stat_line :
      (s : ProcStat F) (pid program : Str) (fields : List Str) (user system pages : ℕ)
      → IsFloat F
      → Lacks b')' pid
      → Lacks b')' program
      → All (Lacks b' ') fields
      → 22 ≤ length fields
      → column 11 fields ≡ decimal user
      → column 12 fields ≡ decimal system
      → column 21 fields ≡ decimal pages
      → user < word_size
      → system < word_size
      → pages < word_size
      → let m = expected s user system pages in
        stat (some (stat_line pid program fields)) s ≡ (some m, record s { cpu_seconds = m.cpu })
  unfolding stat
  stat-stat_line s pid program fields user system pages laws hp hq hf long u v w hu hv hw =
      let name : Lacks b')' (codes " (" ++ program) =
        Lacks-append b')' (codes " (") program (unfold contains_byte in refl) hq in
      let cut : after_paren (stat_line pid program fields) ≡ some (join_fields fields) =
        after_paren-append (pid ++ (codes " (" ++ program)) (join_fields fields)
          (Lacks-append b')' pid (codes " (" ++ program) hp name) in
      stat-columns s (stat_line pid program fields) (join_fields fields) ([] ∷ fields) cut
        (split-join_fields fields hf) (ground arith)
      ∙ ap (λ (m : Measured F). (some m, record s { cpu_seconds = m.cpu }))
          (measured-expected s ([] ∷ fields) user system pages laws u v w hu hv hw)
