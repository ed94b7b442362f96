-- ===== src/Runner/Sends.antt =====
-- What `ProbeRunner` does to the process that it stops for (pkg/process/process.go): it sends SIGKILL, and
-- it never requests a shutdown.
use process_wrapper.Prelude.{
  ℕ, zero, suc, ◌≡◌, refl, Bool, true, false, List, [], ◌∷◌, Option, none, some, arith, All,
  All-append, Bool-cases, inl, inr,
}
use process_wrapper.Prelude.Int.{leb_ℤ, pos}
use process_wrapper.Action.{Action, send, sigkill, write_state, sleep}
use process_wrapper.Command.{probes_undefined}
use process_wrapper.Hooks.{HookWorld}
use process_wrapper.Signals.Termination.{Contains, Contains-append_right}
use process_wrapper.Runner.{
  Setup, Vars, Round, Ended, stops, continues, kill_actions, judge, conclude, all_passed, settle,
  round, probe_runner, and_then,
}
use process_wrapper.Runner.Threshold.{IsLive, is_stopped, round-settle}
use process_wrapper.Lifecycle.Restart.{IsQuiet}

kill_actions-IsQuiet : (u : Setup) → All IsQuiet (kill_actions u)
unfolding kill_actions
kill_actions-IsQuiet u = ground arith

judge-IsQuiet : (u : Setup) (n f : ℕ) (statuses : List Bool) → All IsQuiet (judge u n f statuses).0
unfolding judge
judge-IsQuiet u n f [] = tt
judge-IsQuiet u n f (true ∷ statuses) = (tt, judge-IsQuiet u n f statuses)
judge-IsQuiet u n f (false ∷ statuses) =
    ground (arith, judge-IsQuiet u (suc n) (suc f) statuses, kill_actions-IsQuiet u)

conclude-IsQuiet :
    (w : HookWorld) (u : Setup) (v : Vars) (j : List Action × Option (ℕ × ℕ))
    → u.post_start ≡ none
    → All IsQuiet j.0
    → All IsQuiet (conclude w u v j).0
unfolding conclude all_passed
conclude-IsQuiet w u v (actions, none) p h = h
conclude-IsQuiet w u v (actions, some (zero, f)) p h = rw p (
    All-append IsQuiet actions (write_state u.target.name true ∷ sleep u.probe.period ∷ []) h
      (tt, (tt, tt)))
conclude-IsQuiet w u v (actions, some (suc n, f)) p h =
    All-append IsQuiet actions (write_state u.target.name false ∷ sleep u.probe.period ∷ []) h
      (tt, (tt, tt))

-- The list of a loop over statuses that ends in a kill holds the SIGKILL.
judge-kills :
    (u : Setup) (n f : ℕ) (statuses : List Bool)
    → (judge u n f statuses).1 ≡ none
    → Contains (send u.pid sigkill) (judge u n f statuses).0
unfolding judge
judge-kills u n f [] h = absurd cc
judge-kills u n f (true ∷ statuses) h = inr (judge-kills u n f statuses h)
judge-kills u n f (false ∷ statuses) h =
    elim (Bool-cases (leb_ℤ u.probe.failure_threshold (pos (suc f)))) [
      | inl over ↦ rw over (unfold kill_actions in inr (inr (inr (inr (inr (inr (inl refl)))))))
      | inr under ↦ rw under (inr (inr (judge-kills u (suc n) (suc f) statuses (rw under at h))))
    ]

conclude-kills :
    (w : HookWorld) (u : Setup) (v : Vars) (j : List Action × Option (ℕ × ℕ))
    → u.post_start ≡ none
    → (conclude w u v j).1 ≡ stops
    → (j.1 ≡ none) × ((conclude w u v j).0 ≡ j.0)
unfolding conclude all_passed
conclude-kills w u v (actions, none) p h = (refl, refl)
conclude-kills w u v (actions, some (zero, f)) p h = absurd (let g = rw p at h in cc)
conclude-kills w u v (actions, some (suc n, f)) p h = absurd cc

settle-IsQuiet :
    (w : HookWorld) (u : Setup) (v : Vars) (statuses : List Bool)
    → u.post_start ≡ none
    → probes_undefined u.probe ≡ false
    → All IsQuiet (settle w u v statuses).0
unfolding settle
settle-IsQuiet w u v statuses p d = rw d (
    conclude-IsQuiet w u v (judge u 0 v.failures statuses) p
      (judge-IsQuiet u 0 v.failures statuses))

settle-sends :
    (w : HookWorld) (u : Setup) (v : Vars) (statuses : List Bool)
    → u.post_start ≡ none
    → probes_undefined u.probe ≡ false
    → (settle w u v statuses).1 ≡ stops
    → Contains (send u.pid sigkill) (settle w u v statuses).0
unfolding settle
settle-sends w u v statuses p d h =
    let j = judge u 0 v.failures statuses in
    let (killed, same) = conclude-kills w u v j p (rw d at h) in
    rw (d, same) (judge-kills u 0 v.failures statuses killed)

round-IsQuiet :
    (u : Setup) (v : Vars) (r : Round)
    → u.post_start ≡ none
    → probes_undefined u.probe ≡ false
    → IsLive r
    → All IsQuiet (round u v r).0
round-IsQuiet u v r p d l = rw (round-settle u v r l) (settle-IsQuiet r.hook u _ _ p d)

round-sends :
    (u : Setup) (v : Vars) (r : Round)
    → u.post_start ≡ none
    → probes_undefined u.probe ≡ false
    → IsLive r
    → (round u v r).1 ≡ stops
    → Contains (send u.pid sigkill) (round u v r).0
round-sends u v r p d l h =
    rw (round-settle u v r l) (settle-sends r.hook u _ _ p d (rw (round-settle u v r l) at h))

and_then-IsQuiet :
    (next : Vars → Ended) (e : Ended)
    → All IsQuiet e.0
    → ((v : Vars) → All IsQuiet (next v).0)
    → All IsQuiet (and_then next e).0
and_then-IsQuiet next (actions, stops) q n = q
and_then-IsQuiet next (actions, continues v) q n = All-append IsQuiet actions (next v).0 q (n v)

and_then-sends :
    (a : Action) (next : Vars → Ended) (e : Ended)
    → (e.1 ≡ stops → Contains a e.0)
    → ((v : Vars) → is_stopped (next v).1 ≡ true → Contains a (next v).0)
    → is_stopped (and_then next e).1 ≡ true
    → Contains a (and_then next e).0
and_then-sends a next (actions, stops) here later h = here refl
and_then-sends a next (actions, continues v) here later h =
    Contains-append_right a actions (next v).0 (later v h)

pub probe_runner-IsQuiet :
    (u : Setup) (v : Vars) (rounds : List Round)
    → u.post_start ≡ none
    → probes_undefined u.probe ≡ false
    → All IsLive rounds
    → All IsQuiet (probe_runner u v rounds).0
unfolding probe_runner
probe_runner-IsQuiet u v [] p d l = tt
probe_runner-IsQuiet u v (r ∷ rounds) p d l =
    and_then-IsQuiet (λ v'. probe_runner u v' rounds) (round u v r) (round-IsQuiet u v r p d l.0)
      (λ v'. probe_runner-IsQuiet u v' rounds p d l.1)

pub probe_runner-sends :
    (u : Setup) (v : Vars) (rounds : List Round)
    → u.post_start ≡ none
    → probes_undefined u.probe ≡ false
    → All IsLive rounds
    → is_stopped (probe_runner u v rounds).1 ≡ true
    → Contains (send u.pid sigkill) (probe_runner u v rounds).0
unfolding probe_runner
probe_runner-sends u v [] p d l h = absurd cc
probe_runner-sends u v (r ∷ rounds) p d l h =
    and_then-sends (send u.pid sigkill) (λ v'. probe_runner u v' rounds) (round u v r)
      (round-sends u v r p d l.0) (λ v'. probe_runner-sends u v' rounds p d l.1) h
