-- ===== src/Action/Examples.antt =====
-- Tests of the actions.
use process_wrapper.Prelude.{true, false, List, [], ◌∷◌, codes}
use process_wrapper.State.{new_state}
use process_wrapper.Action.{Action, write_state, write_pid, drop_state, write_shutdown, perform_all}
use process_wrapper.Action.Invariant.{IsWellFormed, reachable-IsWellFormed}
use process_wrapper.Sample.{web}

abbrev mixed : List Action
mixed =
    write_state web false
    ∷ write_pid web 7 5
    ∷ write_state (codes "api") false
    ∷ write_state web true
    ∷ drop_state (codes "api")
    ∷ write_shutdown
    ∷ []

reachable-IsWellFormed_example :
    IsWellFormed (perform_all mixed (new_state (codes "/tmp/started") false))
reachable-IsWellFormed_example = reachable-IsWellFormed mixed (codes "/tmp/started") false
