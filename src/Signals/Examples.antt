-- ===== src/Signals/Examples.antt =====
-- Tests of the signal handler.
use process_wrapper.Prelude.{refl, true, false, List, [], ◌∷◌}
use process_wrapper.Prelude.Dict.{insert, lookup}
use process_wrapper.Clock.{seconds}
use process_wrapper.State.{State, set_pid, new_state}
use process_wrapper.Action.{Action, sigterm, sigint, send, cancel, write_state}
use process_wrapper.Signals.{Notifier, notify}
use process_wrapper.Signals.Termination.{
  Interleaves, none_left, first, second, Before, notify-terminates,
}
use process_wrapper.Sample.{web, fresh}

abbrev notifier : Notifier
notifier = record { cancel_all = 9; graceful_shutdown = seconds 10; find_process = λ pid. true }

abbrev running : State
running = set_pid web 7 5 fresh

notify-terminates_example :
    Before (send 7 sigterm) (cancel 9) (notify notifier running running sigterm)
notify-terminates_example =
    notify-terminates notifier running running sigterm web 7 tt
      (unfold lookup set_pid insert new_state in refl) refl

abbrev others : List Action
others = write_state web false ∷ []

abbrev disturbed : List Action
disturbed = write_state web false ∷ notify notifier running running sigint

late : Interleaves (notify notifier running running sigint) others disturbed
unfolding notify
late = second (first (first (first (first none_left))))
