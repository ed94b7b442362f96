-- ===== src/Runner.antt =====
-- The health checker of a running process: `HealthChecker`, `ProbeRunner` and
-- `PostStartHookRunner` of pkg/process/process.go.
pub mod Threshold
pub mod Recovery
pub mod Kill
pub mod Sends
pub mod Sigkill
mod Examples
use process_wrapper.Prelude.{
  ℕ, zero, suc, ◌+◌, Bool, true, false, List, [], ◌∷◌, ◌++◌, Option, none, some, Str, is_some, leb,
  if◌then◌else◌,
}
use process_wrapper.Prelude.Int.{ℤ, pos, leb_ℤ, is_zero}
use process_wrapper.Clock.{Duration, seconds}
use process_wrapper.State.{State, CancelFunc, is_shutdown}
use process_wrapper.Action.{
  Action, write_state, write_killed, drop_state, cancel, sleep, send, sigkill, push_event,
  restart_event, count_label, failed_probe, success_probe,
}
use process_wrapper.Command.{Probe, Hook, probes_undefined}
use process_wrapper.Outside.{World, Handles}
use process_wrapper.Probes.{Target, run_probes, configured}
use process_wrapper.Hooks.{HookWorld, run_hook}

-- `SetReadinessDelay`, `SetReadinessPeriod`, `SetReadinessFailureThreshold`
unfoldable pub with_defaults : Probe → Probe
with_defaults p = record p {
  delay = if is_zero p.delay then seconds 5 else p.delay;
  period = if is_zero p.period then seconds 5 else p.period;
  failure_threshold = if is_zero p.failure_threshold then pos 3 else p.failure_threshold;
}

-- What a health checker is started with.
pub record Setup : Type 0 where
  pub target : Target
  pub probe : Probe
  pub post_start : Option Hook
  pub pid : ℕ
  pub cancel_routines : CancelFunc

-- The variables of `ProbeRunner` that outlive a round, and the probes' handles.
pub record Vars : Type 0 where
  pub failures : ℕ
  pub hook_executed : Bool
  pub handles : Handles

abbrev pub initial_vars : Handles → Vars
initial_vars h = record { failures = 0; hook_executed = false; handles = h }

-- What a round meets: whether the context is done, the shared state at the test of the shutdown flag
-- and before each probe, and the answers to the probes and to the hook.
pub record Round : Type 0 where
  pub done : Bool
  pub start : State
  pub state : ℕ → State
  pub world : ℕ → World
  pub hook : HookWorld

-- How a round ends; `continues` carries the variables into the next.
pub data Verdict : Type 0 where
  stops : Verdict
  continues : Vars → Verdict

-- After the failure threshold is exceeded.
unfoldable pub kill_actions : Setup → List Action
kill_actions u =
    push_event restart_event
    ∷ write_killed u.target.name true
    ∷ cancel u.cancel_routines
    ∷ sleep (seconds 2)
    ∷ send u.pid sigkill
    ∷ (if is_some u.probe.keep_shared_lock then drop_state u.target.name ∷ [] else [])

-- What the loop over the statuses leaves: `none` if the process was killed, else the counts
-- `unhealthy` and `failureThreshold`.
abbrev pub Judged : Type 0
Judged = List Action × Option (ℕ × ℕ)

abbrev before_rest : List Action → Judged → Judged
before_rest actions (rest, counts) = (actions ++ rest, counts)

-- "Check probe statuses, restart command if failure threshold is exceeded"
unfoldable pub judge : Setup → ℕ → ℕ → List Bool → Judged
unfolding kill_actions
judge u unhealthy failures [] = ([], some (unhealthy, failures))
judge u unhealthy failures (true ∷ statuses) =
    before_rest (count_label success_probe ∷ []) (judge u unhealthy failures statuses)
judge u unhealthy failures (false ∷ statuses) =
    let rest = judge u (suc unhealthy) (suc failures) statuses in
    let seen = count_label failed_probe ∷ write_state u.target.name false ∷ [] in
    if leb_ℤ u.probe.failure_threshold (pos (suc failures))
    then (seen ++ kill_actions u, none)
    else before_rest seen rest

-- `PostStartHookRunner`
unfoldable pub post_start_hook_runner : HookWorld → Setup → Bool × List Action
unfolding run_hook
post_start_hook_runner w u =
    let (passed, steps) = run_hook w u.target.envs u.post_start in
    (passed, write_state u.target.name passed ∷ [])

abbrev pub Ended : Type 0
Ended = List Action × Verdict

abbrev sleep_and_continue : Setup → List Action → Vars → Ended
sleep_and_continue u actions v = (actions ++ sleep u.probe.period ∷ [], continues v)

-- "execute postStart hook and set state to healthy", with the outcome of the hook runner.
unfoldable pub after_hook : Setup → Vars → Bool × List Action → Ended
after_hook u v (true, actions) =
    sleep_and_continue u (actions ++ write_state u.target.name true ∷ [])
      (record v { failures = 0; hook_executed = true })
after_hook u v (false, actions) = (
  actions
      ++ write_state u.target.name false
        ∷ write_killed u.target.name true
        ∷ cancel u.cancel_routines
        ∷ send u.pid sigkill
        ∷ [],
  stops,
)

-- The end of a round in which no probe failed.
unfoldable pub all_passed : HookWorld → Setup → Vars → Ended
unfolding post_start_hook_runner after_hook
all_passed w u v = elim u.post_start [
  | none ↦ sleep_and_continue u (write_state u.target.name true ∷ []) (record v { failures = 0 })
  | some hook ↦
      if v.hook_executed
      then sleep_and_continue u [] v
      else after_hook u v (post_start_hook_runner w u)
]

abbrev pub after : List Action → Ended → Ended
after actions (rest, verdict) = (actions ++ rest, verdict)

-- What follows the loop over the statuses.
unfoldable pub conclude : HookWorld → Setup → Vars → Judged → Ended
unfolding all_passed
conclude w u v (actions, none) = (actions, stops)
conclude w u v (actions, some (zero, failures)) =
    after actions (all_passed w u (record v { failures = failures }))
conclude w u v (actions, some (suc unhealthy, failures)) =
    after actions (
      sleep_and_continue u (write_state u.target.name false ∷ [])
        (record v { failures = failures }))

-- The round, once its probes have been run.
unfoldable pub settle : HookWorld → Setup → Vars → List Bool → Ended
unfolding conclude judge
settle w u v statuses =
    if probes_undefined u.probe
    then ((post_start_hook_runner w u).1, stops)
    else conclude w u v (judge u 0 v.failures statuses)

unfoldable pub round : Setup → Vars → Round → Ended
unfolding settle run_probes configured is_shutdown
round u v r =
    if r.done
    then ([], stops)
    else if is_shutdown r.start
    then ([], stops)
    else let (statuses, handles) =
        run_probes r.world r.state u.target 0 (configured u.probe) v.handles in
      settle r.hook u (record v { handles = handles }) statuses

-- The next round, if there is one, and its actions behind those of this one.
abbrev pub and_then : (Vars → Ended) → Ended → Ended
and_then next (actions, stops) = (actions, stops)
and_then next (actions, continues v) = after actions (next v)

-- `ProbeRunner` over the rounds that it meets.
unfoldable pub probe_runner : Setup → Vars → List Round → Ended
unfolding round
probe_runner u v [] = ([], continues v)
probe_runner u v (r ∷ rounds) = and_then (λ v'. probe_runner u v' rounds) (round u v r)

-- `HealthChecker`: a process without a readiness section only gets its hook.
unfoldable pub health_checker : HookWorld → Setup → Option Probe → Handles → List Round → Ended
unfolding post_start_hook_runner probe_runner with_defaults
health_checker w u none h rounds = ((post_start_hook_runner w u).1, stops)
health_checker w u (some p) h rounds =
    let p' = with_defaults p in
    after (write_state u.target.name false ∷ sleep p'.delay ∷ [])
      (probe_runner (record u { probe = p' }) (initial_vars h) rounds)
