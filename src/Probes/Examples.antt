-- ===== src/Probes/Examples.antt =====
-- Tests of the probes.
use process_wrapper.Prelude.{◌≡◌, refl, true, List, [], ◌∷◌, arith}
use process_wrapper.Prelude.Int.{pos}
use process_wrapper.Prelude.Dict.{lookup}
use process_wrapper.Clock.{seconds}
use process_wrapper.State.{new_state}
use process_wrapper.State.Restarts.{Restart, record_restarts}
use process_wrapper.Command.{FloatingPid}
use process_wrapper.Probes.{run_floating_pid}
use process_wrapper.Probes.Verdicts.{run_floating_pid-large_threshold}
use process_wrapper.Sample.{web, fresh, world_at}

abbrev twice : List Restart
twice = record { name = web; pid = 3; time = 5 } ∷ record { name = web; pid = 4; time = 6 } ∷ []

abbrev lenient : FloatingPid
lenient = record { period = seconds 10; threshold = pos 12 }

run_floating_pid-large_threshold_example :
    run_floating_pid (world_at 7 true) (record_restarts twice fresh) web lenient ≡ true
run_floating_pid-large_threshold_example =
    run_floating_pid-large_threshold (world_at 7 true) twice web fresh lenient 12
      (unfold lookup new_state in refl) refl (omega arith)
