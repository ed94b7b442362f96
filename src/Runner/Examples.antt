-- ===== src/Runner/Examples.antt =====
-- Tests of the health checker.
use process_wrapper.Prelude.{◌↔◌, true}
use process_wrapper.Action.{send, sigkill}
use process_wrapper.Signals.Termination.{Contains}
use process_wrapper.Runner.Sigkill.{probe_runner-sigkill}
use process_wrapper.Prelude.{Bool, ◌≡◌, ◌≢◌, refl, true, false, List, [], ◌∷◌, some}
use process_wrapper.Prelude.Int.{pos}
use process_wrapper.Prelude.Dict.{insert, lookup}
use process_wrapper.State.{State, set_state, new_state, is_shutdown}
use process_wrapper.Command.{probes_undefined}
use process_wrapper.Probes.{run_probes, configured}
use process_wrapper.Action.{perform_all}
use process_wrapper.Runner.{Setup, Vars, Round, initial_vars, probe_runner}
use process_wrapper.Runner.Threshold.{kills, observed}
use process_wrapper.Runner.Recovery.{AfterHook, probe_runner_no_recovery}
use process_wrapper.Runner.Kill.{IsAnnounced, probe_runner-IsAnnounced}
use process_wrapper.Sample.{web, fresh, world_at, no_handles, hook_world, both_parts, web_setup}

abbrev round_with : Bool → Round
round_with up = record {
  done = false;
  start = fresh;
  state = λ i. fresh;
  world = λ i. world_at 7 up;
  hook = hook_world;
}

abbrev flapping : List Round
flapping = round_with false ∷ round_with true ∷ round_with false ∷ round_with false ∷ []

abbrev start : Vars
start = initial_vars no_handles

-- Two failures in a row reach the threshold of two, the one before the good round does not count.
killed_last : kills (pos 2) 0 (observed web_setup no_handles flapping) ≡ true
unfolding run_probes configured
killed_last = refl

not_before :
    kills
      (pos 2)
      0
      (observed web_setup no_handles (round_with false ∷ round_with true ∷ round_with false ∷ []))
    ≡ false
unfolding run_probes configured
not_before = refl

probe_runner-sigkill_example :
    Contains (send 7 sigkill) (probe_runner web_setup start flapping).0
    ↔ (kills (pos 2) 0 (observed web_setup no_handles flapping) ≡ true)
probe_runner-sigkill_example =
    probe_runner-sigkill web_setup start flapping refl (unfold probes_undefined in refl) (
      unfold is_shutdown new_state in
      ((refl, refl), ((refl, refl), ((refl, refl), ((refl, refl), tt)))))

probe_runner-IsAnnounced_example : IsAnnounced web false (probe_runner web_setup start flapping).0
probe_runner-IsAnnounced_example =
    probe_runner-IsAnnounced web_setup start flapping (unfold probes_undefined in refl)

abbrev hooked : Setup
hooked = record web_setup { post_start = some both_parts }

abbrev executed : Vars
executed = record start { hook_executed = true }

abbrev degraded : State
degraded = set_state web false fresh

degraded-AfterHook : AfterHook hooked executed
unfolding probes_undefined
degraded-AfterHook = record {
  hook = both_parts;
  has_hook = refl;
  executed = refl;
  has_probe = refl;
}

degraded_status : lookup web degraded.status_map ≢ some true
unfolding lookup set_state insert new_state
degraded_status e = cc

probe_runner_no_recovery_example :
    lookup web
      (perform_all
        (probe_runner hooked executed (round_with true ∷ round_with true ∷ [])).0
        degraded).status_map
    ≢ some true
probe_runner_no_recovery_example =
    probe_runner_no_recovery hooked executed (round_with true ∷ round_with true ∷ []) degraded
      degraded-AfterHook degraded_status
