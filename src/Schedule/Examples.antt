-- ===== src/Schedule/Examples.antt =====
-- Tests of the schedule.
use mathlib.Core.List.{Memᴰ}
use process_wrapper.Prelude.{
  str_ne, str_eq, ◌≡◌, ◌≢◌, refl, true, false, List, [], ◌∷◌, codes, All, arith,
}
use process_wrapper.Command.{Command}
use process_wrapper.State.{PromTarget, new_state, get_ready_prom_targets}
use process_wrapper.Action.{Action, write_state, perform_all}
use process_wrapper.Schedule.{schedule, prom_targets}
use process_wrapper.Schedule.Names.{names, IsDistinct, schedule-IsDistinct}
use process_wrapper.Schedule.Targets.{replicated_target_never_ready}
use process_wrapper.Sample.{web, web_command, api_command}

abbrev commands : List Command
commands = web_command ∷ api_command ∷ []

replicas : names (schedule [] commands) ≡ web ∷ codes "api_0" ∷ codes "api_1" ∷ []
unfolding schedule
replicas = refl

skipped : names (schedule (web ∷ []) commands) ≡ codes "api_0" ∷ codes "api_1" ∷ []
unfolding schedule
skipped = refl

web_first : IsDistinct (names commands)
unfolding str_eq
web_first = ((str_ne web (codes "api") refl, tt), (tt, tt))

schedule-IsDistinct_example : IsDistinct (names (schedule [] commands))
schedule-IsDistinct_example = schedule-IsDistinct [] commands web_first (omega arith)

abbrev reports : List Action
reports = write_state (codes "api_0") true ∷ write_state (codes "api_1") true ∷ []

replicated_target_never_ready_example :
    All
      (λ (t : PromTarget). t.name ≢ codes "api")
      (get_ready_prom_targets
        (prom_targets commands)
        (perform_all reports (new_state (codes "/tmp/started") false)))
replicated_target_never_ready_example =
    replicated_target_never_ready [] commands api_command 1 reports (codes "/tmp/started") false
      (Memᴰ.tail (Memᴰ.head refl)) refl web_first (omega arith)
      (unfold schedule in
        (Memᴰ.tail (Memᴰ.head refl), (Memᴰ.tail (Memᴰ.tail (Memᴰ.head refl)), tt)))
