-- ===== src/Signals.antt =====
-- The signal handler: `Notify`, `TerminateProcess` and `ProcessKiller` of pkg/signals/signals.go.
pub mod Termination
mod Examples
use process_wrapper.Prelude.{ℕ, Bool, List, [], ◌∷◌, ◌++◌, if◌then◌else◌}
use process_wrapper.Clock.{Duration, seconds}
use process_wrapper.State.{State, CancelFunc, cancel_routines, get_pids}
use process_wrapper.Action.{
  Action, Signal, sigterm, sigkill, sigquit, sigint, sigusr1, sigusr2, write_shutdown, cancel,
  sleep, send, push_event, remove_readiness_file, print_state, termination_event, interrupt_event,
  usr_event, kill_event, perform_all,
}

-- `cancel` ends the context of all commands.
pub record Notifier : Type 0 where
  pub cancel_all : CancelFunc
  pub graceful_shutdown : Duration
  -- `os.FindProcess` finds the process of a pid
  pub find_process : ℕ → Bool

abbrev cancels : List CancelFunc → List Action
cancels [] = []
cancels (c ∷ cs) = cancel c ∷ cancels cs

-- The loop of `TerminateProcess`.
unfoldable pub terminate_pids : Notifier → List ℕ → List Action
terminate_pids n [] = []
terminate_pids n (pid ∷ pids) =
    let rest = terminate_pids n pids in if n.find_process pid then send pid sigterm ∷ rest else rest

unfoldable pub process_killer : Notifier → List Action
process_killer n = sleep n.graceful_shutdown ∷ push_event kill_event ∷ cancel n.cancel_all ∷ []

-- `ProcessKiller` is deferred to the end.
unfoldable pub terminate_process : Notifier → State → List Action
unfolding terminate_pids process_killer get_pids
terminate_process n s = terminate_pids n (get_pids s) ++ process_killer n

-- The part of the graceful shutdown before its sleep, with the state that it reads.
unfoldable pub begin_shutdown : State → List Action
unfolding cancel_routines
begin_shutdown s =
    push_event termination_event
    ∷ (cancels (cancel_routines s)
        ++ remove_readiness_file ∷ write_shutdown ∷ sleep (seconds 1) ∷ [])

-- The reaction to a signal. Of the two states the second is read after the sleep.
unfoldable pub notify : Notifier → State → State → Signal → List Action
unfolding begin_shutdown terminate_process
notify n s later sigterm = begin_shutdown s ++ (terminate_process n later ++ print_state ∷ [])
notify n s later sigquit = begin_shutdown s ++ (terminate_process n later ++ print_state ∷ [])
notify n s later sigint =
    write_shutdown ∷ push_event interrupt_event ∷ remove_readiness_file ∷ cancel n.cancel_all ∷ []
notify n s later sigusr1 = push_event usr_event ∷ print_state ∷ []
notify n s later sigusr2 = push_event usr_event ∷ print_state ∷ []
notify n s later sigkill = []
