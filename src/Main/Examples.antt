-- ===== src/Main/Examples.antt =====
-- Tests of the main program.
use process_wrapper.Prelude.{◌⊎◌, ◌≡◌, refl, true, false, List, [], ◌∷◌, codes, split, str_eq}
use process_wrapper.Prelude.Dict.{insert}
use process_wrapper.State.{State, set_state, new_state}
use process_wrapper.Command.{Command}
use process_wrapper.Schedule.{schedule}
use process_wrapper.Endpoints.{create_readiness_file}
use process_wrapper.Endpoints.Waiting.{SomeReadyRound}
use process_wrapper.Main.{mode, waits, wraps, default_flags, wait_readiness, shared_lock_server}
use process_wrapper.Main.Waits.{
  FileStep, wrapper_round, removal, poll, wrapper_rounds, wait_readiness_sound,
}
use process_wrapper.Sample.{web, fresh, web_command}

-- The flag `wait` counts before all others.
waits_first : mode (record default_flags { wait = true; print_version = true }) ≡ waits
unfolding mode
waits_first = refl

wraps_by_default : mode default_flags ≡ wraps false
unfolding mode
wraps_by_default = refl

default_socket : (shared_lock_server (λ name. []) false).socket ≡ codes ":8191"
unfolding shared_lock_server
default_socket = refl

abbrev up : State
up = set_state web true fresh

-- The file is written between two polls, after a round without a process.
abbrev steps : List FileStep
steps =
    poll false
    ∷ wrapper_round fresh true
    ∷ poll false
    ∷ wrapper_round up true
    ∷ poll false
    ∷ removal
    ∷ poll true
    ∷ []

wait_readiness_sound_example : (false ≡ true) ⊎ SomeReadyRound (wrapper_rounds steps)
wait_readiness_sound_example =
    wait_readiness_sound steps false
      (unfold wait_readiness create_readiness_file set_state new_state insert in refl)

abbrev nameless : Command
nameless = record web_command { name = [] }

nameless_skipped :
    schedule (split b',' default_flags.skip_commands) (nameless ∷ web_command ∷ [])
    ≡ web_command ∷ []
unfolding schedule split str_eq
nameless_skipped = refl
