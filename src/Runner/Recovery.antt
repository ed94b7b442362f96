-- ===== src/Runner/Recovery.antt =====
-- What `ProbeRunner` reports once the post-start hook has run (pkg/process/process.go).
use process_wrapper.Prelude.{
  ℕ, zero, suc, ◌≡◌, ◌≢◌, refl, Bool, true, false, List, [], ◌∷◌, Option, none, some, Str, arith,
  All, All-append, Bool-cases, inl, inr,
}
use process_wrapper.Prelude.Dict.{lookup, lookup-insert, lookup-delete}
use process_wrapper.Command.{Hook, probes_undefined}
use process_wrapper.State.{State, is_shutdown}
use process_wrapper.Hooks.{HookWorld}
use process_wrapper.Action.{Action, write_state, drop_state, perform, perform_all}
use process_wrapper.Runner.{
  and_then, configured, Ended, run_probes, Setup, Vars, Round, Verdict, stops, continues,
  kill_actions, judge, settle, conclude, round, probe_runner,
}

-- No process is reported healthy.
abbrev pub NotRaised : Action → Type 0
NotRaised (write_state name status) = status ≡ false
NotRaised _ = Unit

kill_actions-NotRaised : (u : Setup) → All NotRaised (kill_actions u)
unfolding kill_actions
kill_actions-NotRaised u = ground arith

judge-NotRaised :
    (u : Setup) (unhealthy failures : ℕ) (statuses : List Bool)
    → All NotRaised (judge u unhealthy failures statuses).0
unfolding judge
judge-NotRaised u n f [] = tt
judge-NotRaised u n f (true ∷ statuses) = (tt, judge-NotRaised u n f statuses)
judge-NotRaised u n f (false ∷ statuses) =
    ground (arith, judge-NotRaised u (suc n) (suc f) statuses, kill_actions-NotRaised u)

-- The hook stays marked as executed.
abbrev Keeps : Verdict → Type 0
Keeps stops = Unit
Keeps (continues v) = v.hook_executed ≡ true

-- A command with a post-start hook, which has been executed, and with at least one probe.
pub record AfterHook (u : Setup) (v : Vars) : Type 0 where
  pub hook : Hook
  pub has_hook : u.post_start ≡ some hook
  pub executed : v.hook_executed ≡ true
  pub has_probe : probes_undefined u.probe ≡ false

conclude-NotRaised :
    (w : HookWorld) (u : Setup) (v : Vars) (j : List Action × Option (ℕ × ℕ))
    → AfterHook u v
    → All NotRaised j.0
    → All NotRaised (conclude w u v j).0 × Keeps (conclude w u v j).1
unfolding conclude
conclude-NotRaised w u v (actions, none) a h = (h, tt)
conclude-NotRaised w u v (actions, some (zero, f)) a h =
    rw (a.has_hook, a.executed) (All-append NotRaised actions _ h (tt, tt), refl)
conclude-NotRaised w u v (actions, some (suc n, f)) a h =
    (All-append NotRaised actions _ h (refl, (tt, tt)), a.executed)

round-NotRaised :
    (u : Setup) (v : Vars) (r : Round)
    → AfterHook u v
    → All NotRaised (round u v r).0 × Keeps (round u v r).1
unfolding round settle
round-NotRaised u v r a = elim (Bool-cases r.done) [
  | inl done ↦ rw done (tt, tt)
  | inr live ↦ elim (Bool-cases (is_shutdown r.start)) [
    | inl down ↦ rw (live, down) (tt, tt)
    | inr up ↦
        let (statuses, handles) =
          run_probes r.world r.state u.target 0 (configured u.probe) v.handles in
        rw (live, up, a.has_probe)
          (conclude-NotRaised r.hook u (record v { handles = handles })
            (judge u 0 v.failures statuses)
            (record {
              hook = a.hook;
              has_hook = a.has_hook;
              executed = a.executed;
              has_probe = a.has_probe;
            })
            (judge-NotRaised u 0 v.failures statuses))
  ]
]

and_then-NotRaised :
    (next : Vars → Ended) (e : Ended)
    → All NotRaised e.0
    → Keeps e.1
    → ((v : Vars) → v.hook_executed ≡ true → All NotRaised (next v).0)
    → All NotRaised (and_then next e).0
and_then-NotRaised next (actions, stops) h k n = h
and_then-NotRaised next (actions, continues v) h k n =
    All-append NotRaised actions (next v).0 h (n v k)

probe_runner-NotRaised :
    (u : Setup) (v : Vars) (rounds : List Round)
    → AfterHook u v
    → All NotRaised (probe_runner u v rounds).0
unfolding probe_runner
probe_runner-NotRaised u v [] a = tt
probe_runner-NotRaised u v (r ∷ rounds) a =
    let (lowered, kept) = round-NotRaised u v r a in
    and_then-NotRaised (λ v'. probe_runner u v' rounds) (round u v r) lowered kept
      (λ v' e.
        probe_runner-NotRaised u v' rounds
          (record { hook = a.hook; has_hook = a.has_hook; executed = e; has_probe = a.has_probe }))

perform-NotRaised :
    (name : Str) (a : Action) (s : State)
    → NotRaised a
    → lookup name s.status_map ≢ some true
    → lookup name (perform a s).status_map ≢ some true
unfolding perform
perform-NotRaised name (write_state n b) s low h e =
    ground (arith, lookup-insert n name b s.status_map)
perform-NotRaised name (drop_state n) s low h e = ground (arith, lookup-delete n name s.status_map)
perform-NotRaised name _ s low h e = h e

perform_all-NotRaised :
    (name : Str) (actions : List Action) (s : State)
    → All NotRaised actions
    → lookup name s.status_map ≢ some true
    → lookup name (perform_all actions s).status_map ≢ some true
unfolding perform_all
perform_all-NotRaised name [] s low h = h
perform_all-NotRaised name (a ∷ rest) s low h =
    perform_all-NotRaised name rest (perform a s) low.1 (perform-NotRaised name a s low.0 h)

-- Once the post-start hook of a command with a probe has been executed, its `ProbeRunner` never again
-- reports the process healthy: a process that is not recorded as healthy then, say because a probe
-- failed once, is not recorded as healthy after any further rounds, whatever the probes answer.
pub probe_runner_no_recovery :
    (u : Setup) (v : Vars) (rounds : List Round) (s : State)
    → AfterHook u v
    → lookup u.target.name s.status_map ≢ some true
    → lookup u.target.name (perform_all (probe_runner u v rounds).0 s).status_map ≢ some true
probe_runner_no_recovery u v rounds s a h =
    perform_all-NotRaised u.target.name (probe_runner u v rounds).0 s
      (probe_runner-NotRaised u v rounds a) h
