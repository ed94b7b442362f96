-- ===== src/Action.antt =====
-- What the goroutines of pkg/process and pkg/signals do, as a list of actions in program order:
-- writes of the shared `State`, and effects outside of it. `perform` is the effect of one action on
-- the store; an interleaving of goroutines is a list of their actions.
pub mod Invariant
pub mod Reports
mod Examples
use process_wrapper.Prelude.{ℕ, Bool, List, [], ◌∷◌, Str}
use process_wrapper.Clock.{Time, Duration}
use process_wrapper.State.{
  State, CancelFunc, set_shutdown, set_state, remove_state, set_heart_beat, set_pid,
  set_cancel_routine, set_kill_state, set_preempted,
}

pub data Signal : Type 0 where
  sigterm sigkill sigquit sigint sigusr1 sigusr2 : Signal

-- The event kinds pushed to the metrics server, and the values of the `status` label that
-- `SidecarCmdReadinessCount` counts.
pub data Event : Type 0 where
  restart_event termination_event interrupt_event usr_event kill_event preempted_event : Event

pub data Label : Type 0 where
  failed_probe success_probe restarted oom : Label

pub data Action : Type 0 where
  -- the methods of `State` that write
  write_shutdown : Action
  write_state : Str → Bool → Action
  drop_state : Str → Action
  write_heart_beat : Str → Time → Action
  write_pid : Str → ℕ → Time → Action
  write_cancel : Str → CancelFunc → Action
  write_killed : Str → Bool → Action
  write_preempted : Action
  -- effects outside
  cancel : CancelFunc → Action
  sleep : Duration → Action
  send : ℕ → Signal → Action
  push_event : Event → Action
  count_label : Label → Action
  remove_readiness_file : Action
  print_state : Action

unfoldable pub perform : Action → State → State
unfolding set_shutdown set_state remove_state set_heart_beat set_pid set_cancel_routine
    set_kill_state set_preempted
perform write_shutdown s = set_shutdown s
perform (write_state name status) s = set_state name status s
perform (drop_state name) s = remove_state name s
perform (write_heart_beat name t) s = set_heart_beat name t s
perform (write_pid name pid t) s = set_pid name pid t s
perform (write_cancel name c) s = set_cancel_routine name c s
perform (write_killed name status) s = set_kill_state name status s
perform write_preempted s = set_preempted s
perform _ s = s

unfoldable pub perform_all : List Action → State → State
unfolding perform
perform_all [] s = s
perform_all (a ∷ rest) s = perform_all rest (perform a s)
