-- ===== src/Wrapper/Examples/Restarts.antt =====
-- Tests of the restarts of a command by the health checker and by the memory limit.
use process_wrapper.Lifecycle.Shutdown.{own_ticks}
use process_wrapper.State.{set_shutdown}
use process_wrapper.Prelude.Dict.{lookup_or, lookup, insert}
use process_wrapper.Wrapper.Restarting.{wrapper_restarts}
use process_wrapper.Wrapper.Signalled.{outside_actions}
use process_wrapper.Wrapper.Views.{view, seen}
use process_wrapper.Wrapper.{running, Wrapper, Turn, scheduler, main, outside, advance_all}
use process_wrapper.Wrapper.Examples.{step}
use process_wrapper.Prelude.{zero, suc, ℕ}
use process_wrapper.Prelude.{suc, ℕ, map, All}
use process_wrapper.Lifecycle.Ending.{IsHelpful, IsHelpfulTick}
use process_wrapper.Lifecycle.Starting.{SomeStart, own_actions}
use process_wrapper.Sample.Hundredths.{hundredths, hundredths-IsFloat, client, client-IsPrometheus}
use process_wrapper.Stats.{
  StatRound, get_stats, collect, new_proc_stats, stat, usable, measured, to_number, after_paren,
  usage_updates, make_updates, handle_memory_limit, exceeds_limit,
}
use process_wrapper.Stats.Columns.{stat_line}
use process_wrapper.Stats.Limit.{actions}
use process_wrapper.Wrapper.Memory.{out_of_memory-restart}
use process_wrapper.Action.{oom}
use process_wrapper.Registry.{add_cpu, set_cpu, set_memory}
use process_wrapper.Prelude.Decimal.{parse_uint, read_digits}
use process_wrapper.Prelude.{Str, split}
use process_wrapper.Prelude.{◌++◌, codes, ◌<◌, ◌≡◌, refl, true, false, List, [], ◌∷◌, some, arith}
use process_wrapper.State.{new_state}
use process_wrapper.Action.{write_state}
use process_wrapper.Command.{Command}
use process_wrapper.Lifecycle.{wait, System, run}
use process_wrapper.Clock.{seconds}
use process_wrapper.Action.{
  Action, count_label, failed_probe, sleep, push_event, restart_event, write_killed, cancel, send,
  sigkill,
}
use process_wrapper.State.{is_shutdown}
use process_wrapper.Command.{probes_undefined}
use process_wrapper.Probes.{run_probes, configured}
use process_wrapper.Lifecycle.{Tick, own}
use process_wrapper.Signals.Termination.{Contains, second}
use process_wrapper.Runner.{Round, Vars, initial_vars, probe_runner}
use process_wrapper.Wrapper.Views.{others}
use process_wrapper.Wrapper.Recovery.{other_actions}
use process_wrapper.Sample.{world_at, no_handles, hook_world, web_setup, web, fresh, web_command}
use process_wrapper.Wrapper.Examples.{go_on, in_order}

-- Two rounds in which the probe fails.
abbrev down_round : Round
down_round = record {
  done = false;
  start = fresh;
  state = λ i. fresh;
  world = λ i. world_at 7 false;
  hook = hook_world;
}

abbrev failing : List Round
failing = down_round ∷ down_round ∷ []

abbrev start_vars : Vars
start_vars = initial_vars no_handles

abbrev checker : List Action
checker =
    count_label failed_probe
    ∷ write_state web false
    ∷ write_state web false
    ∷ sleep (seconds 5)
    ∷ count_label failed_probe
    ∷ write_state web false
    ∷ push_event restart_event
    ∷ write_killed web true
    ∷ cancel 1
    ∷ sleep (seconds 2)
    ∷ send 7 sigkill
    ∷ []

checker_actions : (probe_runner web_setup start_vars failing).0 ≡ checker
unfolding probe_runner run_probes configured is_shutdown new_state probes_undefined
checker_actions = refl

abbrev api_up : Action
api_up = write_state (codes "api") true

abbrev serving : System
serving = record { store = fresh; pc = wait 1; calls = 1 }

-- The process uses 2048000 bytes, twice its limit.
abbrev limited_command : Command
limited_command = record web_command { memory_limit_mb = 1_000_000 }

abbrev zero_field : Str
zero_field = codes "0"

abbrev large : StatRound
large = record {
  done = false;
  file = some (
      stat_line (codes "7") (codes "web") (
        codes "S"
        ∷ codes "1"
        ∷ zero_field
        ∷ zero_field
        ∷ zero_field
        ∷ zero_field
        ∷ zero_field
        ∷ zero_field
        ∷ zero_field
        ∷ zero_field
        ∷ zero_field
        ∷ codes "120"
        ∷ codes "30"
        ∷ zero_field
        ∷ zero_field
        ∷ zero_field
        ∷ zero_field
        ∷ zero_field
        ∷ zero_field
        ∷ zero_field
        ∷ zero_field
        ∷ codes "500"
        ∷ []));
}

abbrev watcher : List Action
watcher = write_killed web true ∷ send 7 sigkill ∷ count_label oom ∷ sleep (seconds 10) ∷ []

watcher_actions : actions (get_stats client limited_command 7 (large ∷ [])).steps ≡ watcher
unfolding get_stats collect new_proc_stats stat usable measured to_number parse_uint read_digits
    split after_paren usage_updates make_updates add_cpu set_cpu set_memory handle_memory_limit
    exceeds_limit
watcher_actions = refl

abbrev own_moves : ℕ → List Tick
own_moves zero = []
own_moves (suc n) = own go_on ∷ own_moves n

abbrev while_large : List Tick
while_large = others watcher ++ own_moves 11

go_on-IsHelpful : IsHelpful go_on
go_on-IsHelpful = (refl, λ e. cc)

own_moves-IsHelpful : (n : ℕ) → All IsHelpfulTick (own_moves n)
own_moves-IsHelpful zero = tt
own_moves-IsHelpful (suc n) = (go_on-IsHelpful, own_moves-IsHelpful n)

out_of_memory-restart_example :
    Contains (send 7 sigkill) (other_actions while_large)
    × (1 < (run limited_command while_large serving).calls)
    × SomeStart web (own_actions limited_command while_large serving)
unfolding new_proc_stats stat usable measured to_number parse_uint read_digits split after_paren
    exceeds_limit
out_of_memory-restart_example =
    out_of_memory-restart client limited_command 7 (large ∷ []) [] while_large serving 1
      hundredths-IsFloat client-IsPrometheus refl (refl, tt) refl refl
      (rw watcher_actions (in_order watcher)) tt (unfold new_state in refl) refl
      (tt, (tt, (tt, (tt, own_moves-IsHelpful 11)))) (omega arith)

-- The same in the wrapper, where `NewSchedule` ends in between.
abbrev outside_turns : List Action → List Turn
outside_turns actions = map outside actions

abbrev restarting_turns : List Turn
restarting_turns =
    outside api_up
    ∷ scheduler
    ∷ (outside_turns checker
        ++ (step ∷ step ∷ main ∷ step ∷ step ∷ step ∷ step ∷ step ∷ step ∷ step ∷ step ∷ step ∷ []))

abbrev serving_wrapper : Wrapper
serving_wrapper = record {
  store = fresh;
  machines = record { command = web_command; pc = wait 1; calls = 1 } ∷ [];
  pending = [];
  scheduled = false;
  waiting = true;
  counter = 3;
  phase = running;
}

eleven_moves : own_ticks (seen 0 restarting_turns serving_wrapper) ≡ 11
unfolding seen new_state set_shutdown lookup_or lookup insert
eleven_moves = refl

helpful_moves : All IsHelpfulTick (seen 0 restarting_turns serving_wrapper)
unfolding seen new_state set_shutdown lookup_or lookup insert
helpful_moves = (
  tt,
  (
    tt,
    (
      tt,
      (
        tt,
        (
          tt,
          (
            tt,
            (
              tt,
              (
                tt,
                (tt, (tt, (tt, (tt, (go_on-IsHelpful, (go_on-IsHelpful, own_moves-IsHelpful 9)))))),
              ),
            ),
          ),
        ),
      ),
    ),
  ),
)

wrapper_restarts_example :
    Contains (send 7 sigkill) (outside_actions restarting_turns)
    × ((y' : System) × (view 0 (advance_all restarting_turns serving_wrapper)
          ≡ some (web_command, y'))
        × (1 < y'.calls))
    × SomeStart web (own_actions web_command (seen 0 restarting_turns serving_wrapper) serving)
wrapper_restarts_example =
    wrapper_restarts web_setup start_vars failing (api_up ∷ []) restarting_turns serving_wrapper 0
      web_command serving 1 refl (unfold probes_undefined in refl)
      (unfold is_shutdown new_state in ((refl, refl), ((refl, refl), tt)))
      (unfold run_probes configured in refl) (rw checker_actions (second (in_order checker)))
      (tt, tt) refl (unfold new_state in refl) refl helpful_moves (omega (arith, eleven_moves))
