-- ===== src/Registry/Accepted.antt =====
-- Which updates of the metrics the Prometheus client accepts.
use process_wrapper.Prelude.{
  not, ◌&&◌, ◌↔◌, sym, ◌∙◌, ℕ, zero, suc, ◌<◌, ◌/◌, ltb, if◌then◌else◌, arith, Bool-cases, inl, inr,
  ◌≡◌, refl, Bool, true, false, List, [], ◌∷◌, All, Str, codes, length, Option, none, some, str_eq,
}
use process_wrapper.Prelude.Int.{ℤ, pos, negsuc}
use process_wrapper.Prelude.Decimal.{decimal, digits_onto}
use process_wrapper.Prelude.Float.{Float}
use process_wrapper.Action.{Label, failed_probe, success_probe, restarted, oom}
use process_wrapper.Command.{Command, to_string}
use process_wrapper.Registry.{
  Kind, Collector, counter, gauge, histogram, registered, Change, inc, add, set, observe, Update,
  exit_code_text, count_status, count_lock, set_duration, set_heart_beat_period, observe_merge,
  add_cpu, set_cpu, set_memory, status,
}

abbrev pub IsAscii : Str → Type 0
IsAscii text = All (λ c. c < 128) text

-- The collector that is registered under a name.
abbrev pub find_collector : Str → List Collector → Option Collector
find_collector name [] = none
find_collector name (c ∷ cs) = if str_eq name c.name then some c else find_collector name cs

module _ {ℓ} {F : Type ℓ} where
  -- The kind of metric has the method.
  abbrev pub Has : Kind → Change F → Type 0
  Has counter inc = Unit
  Has counter (add v) = Unit
  Has gauge inc = Unit
  Has gauge (add v) = Unit
  Has gauge (set v) = Unit
  Has histogram (observe v) = Unit
  Has _ _ = ⊥

module _ {ℓ} {F : Type ℓ} ⦃f : Float F⦄ where
  abbrev pub lowers_counter : Kind → Change F → Bool
  lowers_counter counter (add v) = f.lt v (f.of_nat 0)
  lowers_counter _ _ = false

-- The client: the texts that it takes as values of labels, and the updates at which it panics.
pub record Prometheus {ℓ} (F : Type ℓ) : Type ℓ where
  pub valid : Str → Bool
  pub panics : Update F → Bool

abbrev pub all_valid : (Str → Bool) → List Str → Bool
all_valid valid [] = true
all_valid valid (text ∷ texts) = valid text && all_valid valid texts

-- A value of a label is a text in UTF-8. An update with a value for each label panics if one of the values
-- is not valid, and else only if it adds a negative number to a counter.
pub record IsPrometheus {ℓ} {F : Type ℓ} ⦃f : Float F⦄ (p : Prometheus F) : Type ℓ where
  pub valid_ascii : (text : Str) → IsAscii text → p.valid text ≡ true
  pub panics-invalid :
      (u : Update F)
      → length u.values ≡ length u.collector.labels
      → all_valid p.valid u.values ≡ false
      → p.panics u ≡ true
  pub panics-lowers_counter :
      (u : Update F)
      → length u.values ≡ length u.collector.labels
      → All (λ (text : Str). p.valid text ≡ true) u.values
      → Has u.collector.kind u.change
      → p.panics u ≡ lowers_counter u.collector.kind u.change

digits_onto-IsAscii : (fuel n : ℕ) (rest : Str) → IsAscii rest → IsAscii (digits_onto fuel n rest)
unfolding digits_onto
digits_onto-IsAscii zero n rest h = h
digits_onto-IsAscii (suc fuel) n rest h = elim (Bool-cases (ltb n 10)) [
  | inl small ↦ rw small (ground arith, h)
  | inr large ↦ rw large (digits_onto-IsAscii fuel (n / 10) _ (ground arith, h))
]

exit_code_text-IsAscii : (code : ℤ) → IsAscii (exit_code_text code)
unfolding decimal
exit_code_text-IsAscii (pos n) = digits_onto-IsAscii (suc n) n [] tt
exit_code_text-IsAscii (negsuc n) = (omega arith, digits_onto-IsAscii (suc (suc n)) (suc n) [] tt)

status-IsAscii : (l : Label) → IsAscii (status l)
status-IsAscii failed_probe = ground arith
status-IsAscii success_probe = ground arith
status-IsAscii restarted = ground arith
status-IsAscii oom = ground arith

module _ {ℓ} {F : Type ℓ} ⦃f : Float F⦄ (p : Prometheus F) where
  -- The metric is registered under its name, and the client makes the update.
  abbrev pub IsAccepted : Update F → Type 0
  IsAccepted u =
      (find_collector u.collector.name registered ≡ some u.collector)
      × Has u.collector.kind u.change
      × (p.panics u ≡ false)

  IsAccepted-values :
      IsPrometheus p
      → (u : Update F) → find_collector u.collector.name registered ≡ some u.collector
      → length u.values ≡ length u.collector.labels
      → All (λ (text : Str). p.valid text ≡ true) u.values
      → Has u.collector.kind u.change
      → lowers_counter u.collector.kind u.change ≡ false
      → IsAccepted u
  IsAccepted-values laws u found labels valid has kept =
      (found, has, laws.panics-lowers_counter u labels valid has ∙ kept)

  -- All updates of the wrapper but those that add processor time and that report a heartbeat.
  abbrev pub other_updates : Command → Label → ℤ → F → List (Update F)
  other_updates c l code v =
      count_status c l
      ∷ count_lock c
      ∷ set_duration c code v
      ∷ observe_merge v
      ∷ set_cpu c v
      ∷ set_memory c v
      ∷ []

  set_heart_beat_period-IsAccepted :
      (name : Str) (v : F)
      → IsPrometheus p
      → (p.panics (set_heart_beat_period name v) ≡ not (p.valid name))
        × (IsAccepted (set_heart_beat_period name v) ↔ (p.valid name ≡ true))
  unfolding set_heart_beat_period str_eq
  set_heart_beat_period-IsAccepted name v laws = elim (Bool-cases (p.valid name)) [
    | inl utf8 ↦
        let kept = laws.panics-lowers_counter (set_heart_beat_period name v) refl (utf8, tt) tt in
        rw utf8 (kept, (λ a. refl, λ e. (refl, tt, kept)))
    | inr other ↦
        let breaks = laws.panics-invalid (set_heart_beat_period name v) refl (rw other refl) in
        rw other (breaks, (λ a. sym a.2 ∙ breaks, λ e. absurd cc))
  ]

  -- The updates of the wrapper fit the metrics that `init` registers, so the Prometheus client makes
  -- them all, with two exceptions. It panics when `GetStats` adds processor time and the time is
  -- negative; and it panics when `SetHeartBeat` reports the period of a process whose name is not a
  -- text in UTF-8, and then only: this name is the one that the client of `/heartbeat` sends. (The name
  -- of the command and its command line are texts in UTF-8.)
  pub other_updates-IsAccepted :
      (c : Command) (l : Label) (code : ℤ) (name : Str) (v : F)
      → IsPrometheus p
      → p.valid c.name ≡ true
      → p.valid (to_string c) ≡ true
      → All IsAccepted (other_updates c l code v)
        × (p.panics (add_cpu c v) ≡ f.lt v (f.of_nat 0))
        × (p.panics (set_heart_beat_period name v) ≡ not (p.valid name))
        × (IsAccepted (set_heart_beat_period name v) ↔ (p.valid name ≡ true))
  unfolding count_status count_lock set_duration observe_merge add_cpu set_cpu set_memory str_eq
  other_updates-IsAccepted c l code name v laws utf8 cmd =
      let ascii = laws.valid_ascii in
      let accepts = IsAccepted-values laws in
      let (breaks, fits) = set_heart_beat_period-IsAccepted name v laws in
      (
        (
          accepts (count_status c l) refl refl
              (ascii (status l) (status-IsAscii l), (utf8, (cmd, tt))) tt refl,
          (
            accepts (count_lock c) refl refl
                (ascii (codes "success") (ground arith), (utf8, (cmd, tt))) tt refl,
            (
              accepts (set_duration c code v) refl refl
                  (utf8, (ascii (exit_code_text code) (exit_code_text-IsAscii code), tt)) tt refl,
              (
                accepts (observe_merge v) refl refl tt tt refl,
                (
                  accepts (set_cpu c v) refl refl (utf8, tt) tt refl,
                  (accepts (set_memory c v) refl refl (utf8, tt) tt refl, tt),
                ),
              ),
            ),
          ),
        ),
        laws.panics-lowers_counter (add_cpu c v) refl (utf8, tt) tt,
        breaks,
        fits,
      )
