-- ===== src/Stats/Ending.antt =====
-- How the loop of `GetStats` ends (pkg/process/process_stats.go).
use process_wrapper.Prelude.{
  split, length, ltb, Str, ◌∙◌, sym, ap, ℕ, zero, suc, ◌<◌, ◌≡◌, refl, true, false, not, List, [],
  ◌∷◌, Option, none, some, arith, All, leb, Bool-cases, Option-cases, inl, inr, if◌then◌else◌,
}
use process_wrapper.Prelude.Float.{Float, IsFloat}
use process_wrapper.Command.{Command}
use process_wrapper.Registry.{add_cpu, set_cpu, set_memory}
use process_wrapper.Registry.Accepted.{Prometheus, IsPrometheus}
use process_wrapper.Stats.{
  is_blank, after_paren, ProcStat, Measured, StatRound, Exit, looping, returned, panicked,
  make_updates, stat, measured, usable, usage_updates, collect, get_stats, new_proc_stats,
}

-- What a round shows: no measurement, or one whose processor time is or is not below that of the last
-- one.
pub data Reading : Type 0 where
  failed dropped grown : Reading

-- The context of the loop is not done.
abbrev pub IsOpen : StatRound → Type 0
IsOpen r = r.done ≡ false

-- `GetStats` panics at a drop of the processor time, and returns after three failures in a row.
abbrev pub ending : List Reading → Exit
ending (failed ∷ failed ∷ failed ∷ rest) = returned
ending (dropped ∷ rest) = panicked
ending (_ ∷ rest) = ending rest
ending [] = looping

abbrev failures_before : ℕ → List Reading → List Reading
failures_before zero rs = rs
failures_before (suc n) rs = failed ∷ failures_before n rs

failures_before-suc :
    (n : ℕ) (rs : List Reading) → failures_before n (failed ∷ rs) ≡ failures_before (suc n) rs
failures_before-suc zero rs = refl
failures_before-suc (suc n) rs = ap (λ rs'. failed ∷ rs') (failures_before-suc n rs)

ending-dropped :
    (n : ℕ) (rs : List Reading) → n < 3 → ending (failures_before n (dropped ∷ rs)) ≡ panicked
ending-dropped zero rs h = refl
ending-dropped (suc zero) rs h = refl
ending-dropped (suc (suc zero)) rs h = refl
ending-dropped (suc (suc (suc n))) rs h = absurd (omega arith)

ending-grown :
    (n : ℕ) (rs : List Reading) → n < 3 → ending (failures_before n (grown ∷ rs)) ≡ ending rs
ending-grown zero rs h = refl
ending-grown (suc zero) rs h = refl
ending-grown (suc (suc zero)) rs h = refl
ending-grown (suc (suc (suc n))) rs h = absurd (omega arith)

ending-failed :
    (n : ℕ) (rs : List Reading)
    → n < 3
    → leb 3 (suc n) ≡ true
    → ending (failures_before n (failed ∷ rs)) ≡ returned
ending-failed zero rs h e = absurd (ground arith)
ending-failed (suc zero) rs h e = absurd (ground arith)
ending-failed (suc (suc zero)) rs h e = refl
ending-failed (suc (suc (suc n))) rs h e = absurd (omega arith)

ending-few : (n : ℕ) → n < 3 → ending (failures_before n []) ≡ looping
ending-few zero h = refl
ending-few (suc zero) h = refl
ending-few (suc (suc zero)) h = refl
ending-few (suc (suc (suc n))) h = absurd (omega arith)

module _ {ℓ} {F : Type ℓ} ⦃f : Float F⦄ where
  -- The reading of a measurement, given the processor time before.
  abbrev pub reading : F → Option (Measured F) → Reading
  reading last none = failed
  reading last (some m) = if f.lt m.cpu last then dropped else grown

  abbrev pub readings : ProcStat F → List StatRound → List Reading
  readings s [] = []
  readings s (r ∷ rounds) =
      let (m?, s') = stat r.file s in reading s.cpu_seconds (usable m?) ∷ readings s' rounds

  usable-some : (m? : Option (Measured F)) (m : Measured F) → usable m? ≡ some m → m? ≡ some m
  unfolding usable
  usable-some none m h = absurd cc
  usable-some (some m') m h = elim (Bool-cases (is_blank m')) [
    | inl blank ↦ absurd cc
    | inr full ↦ cc
  ]

  -- A measurement holds the change of the processor time.
  stat-delta :
      (file : Option Str) (s : ProcStat F) (m : Measured F)
      → (stat file s).0 ≡ some m
      → m.delta ≡ f.minus m.cpu s.cpu_seconds
  unfolding stat
  stat-delta none s m h = absurd cc
  stat-delta (some text) s m h = elim (Option-cases (after_paren text)) [
    | inl nothing ↦ absurd cc
    | inr (rest, cut) ↦ elim (Bool-cases (ltb (length (split b' ' rest)) 23)) [
      | inl few ↦ absurd cc
      | inr enough ↦
          let same : measured s (split b' ' rest) ≡ m = cc in rw (← same) (unfold measured in refl)
    ]
  ]

  usage_updates-survive :
      (p : Prometheus F) (c : Command) (m : Measured F)
      → IsPrometheus p
      → p.valid c.name ≡ true
      → (make_updates p (usage_updates c m)).1 ≡ not (f.lt m.delta (f.of_nat 0))
  unfolding make_updates usage_updates
  usage_updates-survive p c m laws name =
      let adds : p.panics (add_cpu c m.delta) ≡ f.lt m.delta (f.of_nat 0) =
        laws.panics-lowers_counter (add_cpu c m.delta) refl (name, tt) tt in
      let sets : p.panics (set_cpu c m.cpu) ≡ false =
        laws.panics-lowers_counter (set_cpu c m.cpu) refl (name, tt) tt in
      let sets' : p.panics (set_memory c m.memory) ≡ false =
        laws.panics-lowers_counter (set_memory c m.memory) refl (name, tt) tt in
      elim (Bool-cases (f.lt m.delta (f.of_nat 0))) [
        | inl lowers ↦ rw (adds, lowers) refl
        | inr keeps ↦ rw (adds, keeps, sets, sets') refl
      ]

  collect-exit :
      (p : Prometheus F) (c : Command) (pid n : ℕ) (s : ProcStat F) (rounds : List StatRound)
      → IsFloat F
      → IsPrometheus p
      → p.valid c.name ≡ true
      → All IsOpen rounds
      → n < 3
      → (collect p c pid n s rounds).exit ≡ ending (failures_before n (readings s rounds))
  unfolding collect
  collect-exit p c pid n s [] fl laws name h small = sym (ending-few n small)
  collect-exit p c pid n s (r ∷ rounds) fl laws name (live, h) small =
      let s' = (stat r.file s).1 in
      elim (Option-cases (usable (stat r.file s).0)) [
        | inl bad ↦ elim (Bool-cases (leb 3 (suc n))) [
          | inl enough ↦ rw (live, bad, enough) (sym (ending-failed n _ small enough))
          | inr few ↦
              rw (live, bad, few, failures_before-suc)
                (collect-exit p c pid (suc n) s' rounds fl laws name h (ground arith))
        ]
        | inr (m, good) ↦
            let survives = usage_updates-survive p c m laws name in
            let change : f.lt m.delta (f.of_nat 0) ≡ f.lt m.cpu s.cpu_seconds =
              rw (stat-delta r.file s m (usable-some (stat r.file s).0 m good))
                (fl.lt-minus m.cpu s.cpu_seconds) in
            elim (Bool-cases (f.lt m.cpu s.cpu_seconds)) [
              | inl drops ↦
                  rw (live, good, survives, change, drops) (sym (ending-dropped n _ small))
              | inr grows ↦
                  rw (live, good, survives, change, grows)
                    (collect-exit p c pid 0 s' rounds fl laws name h (omega arith)
                      ∙ sym (ending-grown n _ small))
            ]
      ]

  -- As long as its context is not done, `GetStats` goes on until a usable measurement shows less
  -- processor time than the last one, at which it panics, or until three measurements in a row fail, at
  -- which it returns. (The first measurement is compared with zero, an error and a measurement that is
  -- all zero are failures, and the name of the process is a text in UTF-8.)
  pub get_stats-ending :
      (p : Prometheus F) (c : Command) (pid : ℕ) (rounds : List StatRound)
      → IsFloat F
      → IsPrometheus p
      → p.valid c.name ≡ true
      → All IsOpen rounds
      → let s = new_proc_stats pid (f.of_nat 0) (f.of_nat 0) in
        (get_stats p c pid rounds).exit ≡ ending (readings s rounds)
  unfolding get_stats
  get_stats-ending p c pid rounds fl laws name h =
      collect-exit p c pid 0 (new_proc_stats pid (f.of_nat 0) (f.of_nat 0)) rounds fl laws name h
        (omega arith)
