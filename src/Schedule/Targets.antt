-- ===== src/Schedule/Targets.antt =====
-- Scrape targets and replicas: pkg/config/config.go against `NewSchedule` and `GetReadyPromTargets`.
use mathlib.Core.Path.{subst}
use mathlib.Core.List.{Memᴰ}
use process_wrapper.Prelude.{
  ℕ, zero, suc, ◌+◌, ◌≡◌, ◌≢◌, refl, sym, ap, ◌∙◌, inl, inr, Bool, true, false, List, [], ◌∷◌, Str,
  none, slice_contains, All, All-append, Bool-cases, str_eq_iff, str_eq,
}
use process_wrapper.Prelude.Int.{pos}
use process_wrapper.Prelude.Dict.{lookup, lookup_or}
use process_wrapper.Command.{Command}
use process_wrapper.State.{State, PromTarget, new_state, get_ready_prom_targets}
use process_wrapper.Action.{Action, write_state, drop_state, perform_all}
use process_wrapper.Action.Reports.{last_report, status-last_report}
use process_wrapper.Schedule.{replicas_from, expand, schedule, prom_targets}
use process_wrapper.Schedule.Names.{
  IsPlain, IsDistinct, names, names-append, schedule-ne, plain-ne-replica_name, All-ne-Origin,
  expand-Origin,
}

All-Memᴰ :
    (P : Str → Type 0) (c : Command) (cs : List Command) → Memᴰ c cs → All P (names cs) → P c.name
All-Memᴰ P c [] m h = elim m [ ]
All-Memᴰ P c (d ∷ cs) (Memᴰ.head e) h = subst (λ x. P x.name) (sym e) h.0
All-Memᴰ P c (d ∷ cs) (Memᴰ.tail m) h = All-Memᴰ P c cs m h.1

replicas_from-ne :
    (k : Str) (c : Command) (r n : ℕ) → IsPlain k → All (λ y. k ≢ y) (names (replicas_from c r n))
unfolding replicas_from
replicas_from-ne k c r zero h = tt
replicas_from-ne k c r (suc n) h =
    (plain-ne-replica_name k c.name r h, replicas_from-ne k c (r + 1) n h)

-- A command with replicas is never started under its own name.
schedule-ne_replicated :
    (skip : List Str) (cs : List Command) (c : Command) (n : ℕ)
    → Memᴰ c cs
    → c.replicas ≡ pos (suc n)
    → IsDistinct (names cs)
    → All IsPlain (names cs)
    → All (λ y. c.name ≢ y) (names (schedule skip cs))
unfolding schedule
schedule-ne_replicated skip [] c n m z d p = elim m [ ]
schedule-ne_replicated skip (b ∷ cs) c n (Memᴰ.head e) z d p =
    let same : c.name ≡ b.name = ap (λ x. x.name) e in
    let more : b.replicas ≡ pos (suc n) = ap (λ x. x.replicas) (sym e) ∙ z in
    let rest = schedule-ne skip cs b.name b.name p.0 p.1 d.0 (inl refl) in
    rw same (elim (Bool-cases (slice_contains skip b.name)) [
      | inl skipped ↦ rw skipped rest
      | inr kept ↦
          rw (kept, more, names-append)
            (All-append (λ y. b.name ≢ y) (names (replicas_from b 0 (suc n)))
              (names (schedule skip cs)) (replicas_from-ne b.name b 0 (suc n) p.0) rest)
    ])
schedule-ne_replicated skip (b ∷ cs) c n (Memᴰ.tail m) z d p =
    let rest = schedule-ne_replicated skip cs c n m z d.1 p.1 in
    let differ : b.name ≢ c.name = All-Memᴰ (λ x. b.name ≢ x) c cs m d.0 in
    let plain = All-Memᴰ IsPlain c cs m p.1 in
    elim (Bool-cases (slice_contains skip b.name)) [
      | inl skipped ↦ rw skipped rest
      | inr kept ↦
          rw (kept, names-append)
            (All-append (λ y. c.name ≢ y) (names (expand b b.replicas)) (names (schedule skip cs))
              (All-ne-Origin c.name b.name c.name _ plain p.0 (λ e. differ (sym e)) (inl refl)
                (expand-Origin b b.replicas))
              rest)
    ]

-- An action reports the status of the given processes only.
abbrev pub ReportsOnly : List Str → Action → Type 0
ReportsOnly known (write_state name b) = Memᴰ name known
ReportsOnly known _ = Unit

All-at : (P : Str → Type 0) (x : Str) (xs : List Str) → Memᴰ x xs → All P xs → P x
All-at P x [] m h = elim m [ ]
All-at P x (y ∷ ys) (Memᴰ.head e) h = subst P (sym e) h.0
All-at P x (y ∷ ys) (Memᴰ.tail m) h = All-at P x ys m h.1

last_report-unknown :
    (known : List Str) (name : Str) (actions : List Action)
    → All (λ y. name ≢ y) known
    → All (ReportsOnly known) actions
    → last_report name actions none ≡ none
last_report-unknown known name [] ne h = refl
last_report-unknown known name (write_state n b ∷ rest) ne h = elim (Bool-cases (str_eq n name)) [
  | inl same ↦ absurd (All-at (λ y. name ≢ y) n known h.0 ne (sym ((str_eq_iff n name).0 same)))
  | inr other ↦ rw other (last_report-unknown known name rest ne h.1)
]
last_report-unknown known name (drop_state n ∷ rest) ne h = elim (Bool-cases (str_eq n name)) [
  | inl same ↦ rw same (last_report-unknown known name rest ne h.1)
  | inr other ↦ rw other (last_report-unknown known name rest ne h.1)
]
last_report-unknown known name (_ ∷ rest) ne h = last_report-unknown known name rest ne h.1

ready-ne :
    (targets : List PromTarget) (s : State) (name : Str)
    → lookup name s.status_map ≡ none
    → All (λ (t : PromTarget). t.name ≢ name) (get_ready_prom_targets targets s)
unfolding get_ready_prom_targets lookup_or
ready-ne [] s name h = tt
ready-ne (t ∷ targets) s name h = elim (Bool-cases (lookup_or false t.name s.status_map)) [
  | inl ready ↦ rw ready (
    (λ e.
        let off : lookup_or false name s.status_map ≡ false = rw (h, lookup_or) in
        let on : lookup_or false name s.status_map ≡ true =
          subst (λ x. lookup_or false x s.status_map ≡ true) e ready in
        cc),
    ready-ne targets s name h,
  )
  | inr waiting ↦ rw waiting (ready-ne targets s name h)
]

-- The scrape target of a command with replicas is never ready: whatever statuses are reported for the
-- scheduled processes, in whatever order, `GetReadyPromTargets` never returns a target of that
-- name, if the configured names are distinct and hold no underscore.
pub replicated_target_never_ready :
    (skip : List Str) (cs : List Command) (c : Command) (n : ℕ) (actions : List Action) (file : Str)
    (drain : Bool)
    → Memᴰ c cs
    → c.replicas ≡ pos (suc n)
    → IsDistinct (names cs)
    → All IsPlain (names cs)
    → All (ReportsOnly (names (schedule skip cs))) actions
    → All
        (λ (t : PromTarget). t.name ≢ c.name)
        (get_ready_prom_targets (prom_targets cs) (perform_all actions (new_state file drain)))
replicated_target_never_ready skip cs c n actions file drain m z d p h =
    let s = new_state file drain in
    let empty : lookup c.name s.status_map ≡ none = unfold new_state lookup in refl in
    ready-ne (prom_targets cs) (perform_all actions s) c.name (
      status-last_report c.name actions s
      ∙ ap (last_report c.name actions) empty
      ∙ last_report-unknown (names (schedule skip cs)) c.name actions
          (schedule-ne_replicated skip cs c n m z d p) h)
