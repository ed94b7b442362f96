-- ===== src/Runner/Sigkill.antt =====
-- When `ProbeRunner` sends SIGKILL to the process (pkg/process/process.go).
use process_wrapper.Prelude.{
  ℕ, zero, suc, ◌≡◌, ◌∙◌, refl, sym, subst, ◌↔◌, Bool, true, false, List, [], ◌∷◌, Option, none,
  some, All, All-append, Bool-cases, inl, inr,
}
use process_wrapper.Prelude.Int.{leb_ℤ, pos}
use process_wrapper.Action.{Action, send, sigkill, write_state, sleep}
use process_wrapper.Command.{probes_undefined}
use process_wrapper.Hooks.{HookWorld}
use process_wrapper.Signals.Termination.{Contains}
use process_wrapper.Runner.{
  Setup, Vars, Round, Ended, stops, continues, judge, conclude, all_passed, settle, round,
  probe_runner, and_then,
}
use process_wrapper.Runner.Threshold.{
  IsLive, is_stopped, round-settle, kills, observed, probe_runner-kills,
}
use process_wrapper.Runner.Sends.{probe_runner-sends}

-- Not a signal.
abbrev IsMild : Action → Type 0
IsMild (send pid g) = ⊥
IsMild _ = Unit

mild-absent :
    (pid : ℕ) (actions : List Action) → All IsMild actions → ¬ Contains (send pid sigkill) actions
mild-absent pid [] m h = h
mild-absent pid (a ∷ actions) m (inl e) = subst IsMild (sym e) m.0
mild-absent pid (a ∷ actions) m (inr h) = mild-absent pid actions m.1 h

judge-IsMild :
    (u : Setup) (n f : ℕ) (statuses : List Bool) (counts : ℕ × ℕ)
    → (judge u n f statuses).1 ≡ some counts
    → All IsMild (judge u n f statuses).0
unfolding judge
judge-IsMild u n f [] counts h = tt
judge-IsMild u n f (true ∷ statuses) counts h = (tt, judge-IsMild u n f statuses counts h)
judge-IsMild u n f (false ∷ statuses) counts h =
    elim (Bool-cases (leb_ℤ u.probe.failure_threshold (pos (suc f)))) [
      | inl over ↦ absurd (let g = rw over at h in cc)
      | inr under ↦
          rw under (tt, (tt, judge-IsMild u (suc n) (suc f) statuses counts (rw under at h)))
    ]

conclude-IsMild :
    (w : HookWorld) (u : Setup) (v : Vars) (j : List Action × Option (ℕ × ℕ))
    → u.post_start ≡ none
    → ((counts : ℕ × ℕ) → j.1 ≡ some counts → All IsMild j.0)
    → is_stopped (conclude w u v j).1 ≡ false
    → All IsMild (conclude w u v j).0
unfolding conclude all_passed
conclude-IsMild w u v (actions, none) p mild h = absurd cc
conclude-IsMild w u v (actions, some (zero, f)) p mild h = rw p (
    All-append IsMild actions (write_state u.target.name true ∷ sleep u.probe.period ∷ [])
      (mild (0, f) refl) (tt, (tt, tt)))
conclude-IsMild w u v (actions, some (suc n, f)) p mild h =
    All-append IsMild actions (write_state u.target.name false ∷ sleep u.probe.period ∷ [])
      (mild (suc n, f) refl) (tt, (tt, tt))

settle-IsMild :
    (w : HookWorld) (u : Setup) (v : Vars) (statuses : List Bool)
    → u.post_start ≡ none
    → probes_undefined u.probe ≡ false
    → is_stopped (settle w u v statuses).1 ≡ false
    → All IsMild (settle w u v statuses).0
unfolding settle
settle-IsMild w u v statuses p d h = rw d (
    conclude-IsMild w u v (judge u 0 v.failures statuses) p (judge-IsMild u 0 v.failures statuses)
      (rw d at h))

round-IsMild :
    (u : Setup) (v : Vars) (r : Round)
    → u.post_start ≡ none
    → probes_undefined u.probe ≡ false
    → IsLive r
    → is_stopped (round u v r).1 ≡ false
    → All IsMild (round u v r).0
round-IsMild u v r p d l h =
    rw (round-settle u v r l) (settle-IsMild r.hook u _ _ p d (rw (round-settle u v r l) at h))

and_then-IsMild :
    (next : Vars → Ended) (e : Ended)
    → (is_stopped e.1 ≡ false → All IsMild e.0)
    → ((v : Vars) → is_stopped (next v).1 ≡ false → All IsMild (next v).0)
    → is_stopped (and_then next e).1 ≡ false
    → All IsMild (and_then next e).0
and_then-IsMild next (actions, stops) here later h = here h
and_then-IsMild next (actions, continues v) here later h =
    All-append IsMild actions (next v).0 (here refl) (later v h)

probe_runner-IsMild :
    (u : Setup) (v : Vars) (rounds : List Round)
    → u.post_start ≡ none
    → probes_undefined u.probe ≡ false
    → All IsLive rounds
    → is_stopped (probe_runner u v rounds).1 ≡ false
    → All IsMild (probe_runner u v rounds).0
unfolding probe_runner
probe_runner-IsMild u v [] p d l h = tt
probe_runner-IsMild u v (r ∷ rounds) p d l h =
    and_then-IsMild (λ v'. probe_runner u v' rounds) (round u v r) (round-IsMild u v r p d l.0)
      (λ v'. probe_runner-IsMild u v' rounds p d l.1) h

-- For a command with probes and without a post-start hook, as long as the health checker is neither
-- cancelled nor in shutdown: `ProbeRunner` sends SIGKILL to the process in the rounds that it meets
-- exactly when the answers of the probes in these rounds meet the specification `kills`.
pub probe_runner-sigkill :
    (u : Setup) (v : Vars) (rounds : List Round)
    → u.post_start ≡ none
    → probes_undefined u.probe ≡ false
    → All IsLive rounds
    → Contains (send u.pid sigkill) (probe_runner u v rounds).0
      ↔ (kills u.probe.failure_threshold v.failures (observed u v.handles rounds) ≡ true)
probe_runner-sigkill u v rounds p d l =
    let meets = probe_runner-kills u v rounds p d l in
    (
      λ sent. elim (Bool-cases (is_stopped (probe_runner u v rounds).1)) [
        | inl stopped ↦ sym meets ∙ stopped
        | inr goes_on ↦
            absurd (mild-absent u.pid _ (probe_runner-IsMild u v rounds p d l goes_on) sent)
      ],
      λ over. probe_runner-sends u v rounds p d l (meets ∙ over),
    )
