-- ===== src/Endpoints/Examples.antt =====
-- Tests of the endpoints.
use mathlib.Core.List.{Memᴰ}
use process_wrapper.Prelude.{ap, arith, codes, ◌≡◌, refl, true, false, List, [], ◌∷◌, some, str_eq}
use process_wrapper.Prelude.Dict.{lookup, lookup_or, insert}
use process_wrapper.Command.{Command}
use process_wrapper.Schedule.{schedule, prom_targets}
use process_wrapper.Endpoints.PromMerge.{
  PromMerge, IsReplicated, prom_merge_handler, prom_merge-replicated,
}
use process_wrapper.State.{
  get_ready_prom_targets, process_state, State, set_state, new_state, get_pid,
}
use process_wrapper.Action.{Action, write_state, perform_all}
use process_wrapper.Http.{no_response, write, write_header}
use process_wrapper.Endpoints.{count_unhealthy, Bool, pidof_endpoint, create_readiness_file}
use process_wrapper.Sample.{web, fresh, web_command, api_command}

abbrev down : State
down = set_state web false fresh

abbrev up : State
up = set_state web true down

unknown_pid : (pidof_endpoint web fresh).status ≡ some 404
unfolding pidof_endpoint get_pid write_header new_state lookup_or lookup
unknown_pid = refl

abbrev rounds : List (State × Bool)
rounds = (fresh, true) ∷ (down, true) ∷ (up, false) ∷ (up, true) ∷ []

written : create_readiness_file rounds ≡ true
unfolding create_readiness_file count_unhealthy process_state set_state insert new_state str_eq
written = refl

-- The package as it may be: nothing is dropped, and every target is one line.
abbrev merge : PromMerge
merge = record { collect = λ targets. targets; to_string = λ targets. codes "up 1" }

api_IsReplicated : (c : Command) → Memᴰ c (api_command ∷ []) → IsReplicated c
api_IsReplicated c (Memᴰ.head e) = (1, ap (λ (d : Command). d.replicas) e)
api_IsReplicated c (Memᴰ.tail m) = elim m [ ]

abbrev ready_replicas : List Action
ready_replicas = write_state (codes "api_0") true ∷ write_state (codes "api_1") true ∷ []

prom_merge-replicated_example :
    prom_merge_handler merge
      (prom_targets (api_command ∷ []))
      (perform_all ready_replicas (new_state (codes "/tmp/started") false))
    ≡ write_header 204 no_response
prom_merge-replicated_example =
    prom_merge-replicated merge [] (api_command ∷ []) ready_replicas (codes "/tmp/started") false
      refl api_IsReplicated (tt, tt) (omega arith)
      (unfold schedule in (Memᴰ.head refl, (Memᴰ.tail (Memᴰ.head refl), tt)))

one_target :
    prom_merge_handler merge (prom_targets (web_command ∷ [])) up ≡ write (codes "up 1") no_response
unfolding prom_merge_handler prom_targets set_state insert new_state str_eq get_ready_prom_targets
    process_state lookup_or lookup
one_target = refl
