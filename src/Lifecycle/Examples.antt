-- ===== src/Lifecycle/Examples.antt =====
-- Tests of the life of a command.
use process_wrapper.Prelude.{◌≡◌, refl, true, false, List, [], ◌∷◌, some, arith}
use process_wrapper.Prelude.Dict.{lookup_or, insert}
use process_wrapper.State.{set_shutdown, new_state}
use process_wrapper.Action.{write_killed, write_state}
use process_wrapper.Lifecycle.{
  start, wait, test_killed, finished, Input, System, Tick, own, other, run,
}
use process_wrapper.Lifecycle.Shutdown.{HasExited, shutdown_is_final}
use process_wrapper.Lifecycle.Ending.{IsHelpful, run-finishes}
use process_wrapper.Sample.{web, fresh, web_command}

abbrev go_on : Input
go_on = record { context_done = false; lease_granted = true; launched = some (7, 1); now = 5 }

abbrev ended : System
ended = record { store = set_shutdown fresh; pc = test_killed 1; calls = 2 }

-- The kill flag is set between the moves.
abbrev disturbed : List Tick
disturbed =
    other (write_killed web true)
    ∷ own go_on
    ∷ own go_on
    ∷ own go_on
    ∷ other (write_killed web true)
    ∷ own go_on
    ∷ own go_on
    ∷ own go_on
    ∷ own go_on
    ∷ own go_on
    ∷ own go_on
    ∷ []

stopped : (run web_command disturbed ended).pc ≡ finished
unfolding run set_shutdown new_state lookup_or insert
stopped = refl

ended-shutdown : ended.store.shutdown ≡ true
unfolding set_shutdown
ended-shutdown = refl

shutdown_is_final_example : HasExited (run web_command disturbed ended).pc
shutdown_is_final_example = shutdown_is_final web_command disturbed ended ended-shutdown tt

-- The command runs when the shutdown begins.
abbrev busy : System
busy = record { store = set_shutdown fresh; pc = wait 1; calls = 1 }

abbrev to_the_end : List Tick
to_the_end =
    own go_on
    ∷ other (write_killed web true)
    ∷ own go_on
    ∷ own go_on
    ∷ own go_on
    ∷ own go_on
    ∷ own go_on
    ∷ own go_on
    ∷ own go_on
    ∷ own go_on
    ∷ []

helpful : IsHelpful go_on
helpful = (refl, λ h. cc)

run-finishes_example : (run web_command to_the_end busy).pc ≡ finished
run-finishes_example =
    run-finishes web_command to_the_end busy
      (
        helpful,
        (
          tt,
          (
            helpful,
            (helpful, (helpful, (helpful, (helpful, (helpful, (helpful, (helpful, tt))))))),
          ),
        ),
      )
      ended-shutdown tt (omega arith) (omega arith)

abbrev crashed : System
crashed = record { store = fresh; pc = test_killed 1; calls = 1 }

abbrev quiet : List Tick
quiet =
    own go_on
    ∷ own go_on
    ∷ other (write_state web false)
    ∷ own go_on
    ∷ own go_on
    ∷ own go_on
    ∷ own go_on
    ∷ own go_on
    ∷ []

again : (run web_command quiet crashed).pc ≡ start
unfolding run new_state lookup_or
again = refl

fresh-shutdown : fresh.shutdown ≡ false
unfolding new_state
fresh-shutdown = refl
