-- ===== src/Wrapper/Examples/Requests.antt =====
-- Tests of the requests that make the wrapper return.
use process_wrapper.Lifecycle.Cancelled.{IsCancelled}
use process_wrapper.Wrapper.{stopped, command}
use process_wrapper.Wrapper.Cancelled.{IsCancelledTurn, cancelled_stops}
use process_wrapper.Wrapper.Examples.{go_on}
use process_wrapper.Lifecycle.{wait}
use process_wrapper.Prelude.Dict.{lookup_or, insert}
use process_wrapper.Sample.{web_command}
use process_wrapper.Lifecycle.Restart.{IsQuiet}
use process_wrapper.Wrapper.Requested.{completed-requested}
use process_wrapper.Wrapper.Signalled.{outside_actions}
use process_wrapper.Sample.Hundredths.{hundredths}
use process_wrapper.Prelude.{arith, none, ◌≡◌, refl, true, List, [], ◌∷◌, All}
use process_wrapper.State.{new_state}
use process_wrapper.Schedule.{schedule}
use process_wrapper.Wrapper.{Turn, scheduler, main, outside, advance_all, started}
use process_wrapper.Action.{cancel}
use process_wrapper.Sample.{fresh}
use process_wrapper.Wrapper.Examples.{commands, whole_run, whole_run-completed, step}
use process_wrapper.Action.{cancel}

completed-requested_example : ¬ All IsQuiet (outside_actions whole_run)
completed-requested_example =
    completed-requested fresh [] commands whole_run (unfold new_state in refl)
      (unfold schedule in λ e. cc) whole_run-completed

-- The command runs.
abbrev running_turns : List Turn
running_turns = scheduler ∷ step ∷ main ∷ step ∷ step ∷ step ∷ scheduler ∷ []

abbrev dead_step : Turn
dead_step = command 0 (record go_on { context_done = true; launched = none })

abbrev cancelled_turns : List Turn
cancelled_turns =
    outside (cancel 9)
    ∷ dead_step
    ∷ dead_step
    ∷ dead_step
    ∷ main
    ∷ dead_step
    ∷ dead_step
    ∷ dead_step
    ∷ dead_step
    ∷ dead_step
    ∷ dead_step
    ∷ dead_step
    ∷ []

both : IsCancelled (record go_on { context_done = true; launched = none })
both = (refl, refl)

all_cancelled : All IsCancelledTurn cancelled_turns
all_cancelled =
    (tt, (both, (both, (both, (tt, (both, (both, (both, (both, (both, (both, (both, tt))))))))))))

cancelled_stops_example :
    (advance_all cancelled_turns (advance_all running_turns (started fresh [] commands))).phase
    ≡ stopped
unfolding advance_all started schedule new_state lookup_or insert
cancelled_stops_example =
    cancelled_stops fresh [] commands running_turns cancelled_turns 0
      (record { command = web_command; pc = wait 1; calls = 1 }) 1 refl (λ e. cc) tt refl refl refl
      refl all_cancelled (omega arith)
