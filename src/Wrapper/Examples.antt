-- ===== src/Wrapper/Examples.antt =====
-- Tests of the wrapper as a whole.
mod Restarts
mod Requests
use process_wrapper.Lifecycle.Restart.{IsQuiet}
use process_wrapper.Wrapper.Requested.{completed-requested}
use process_wrapper.Wrapper.Signalled.{outside_actions}
use process_wrapper.Sample.Hundredths.{
  Hundredths, hundredths, hundredths-IsFloat, client, client-IsPrometheus,
}
use process_wrapper.Stats.{
  StatRound, get_stats, collect, new_proc_stats, stat, usable, measured, to_number, after_paren,
  usage_updates, make_updates, handle_memory_limit, exceeds_limit, looping,
}
use process_wrapper.Stats.Columns.{stat_line}
use process_wrapper.Stats.Limit.{actions}
use process_wrapper.Wrapper.Memory.{out_of_memory-restart}
use process_wrapper.Action.{oom}
use process_wrapper.Registry.{add_cpu, set_cpu, set_memory}
use process_wrapper.Prelude.Decimal.{parse_uint, read_digits}
use process_wrapper.Prelude.{Str, split, none}
use process_wrapper.Prelude.{
  ◌++◌, codes, ◌<◌, zero, suc, suc, ◌≡◌, refl, true, false, List, [], ◌∷◌, some, arith, All,
}
use process_wrapper.Prelude.Dict.{lookup_or, lookup, insert}
use process_wrapper.State.{set_shutdown, new_state}
use process_wrapper.Action.{write_shutdown, write_state}
use process_wrapper.Command.{Command}
use process_wrapper.Lifecycle.{wait, finished, Input, System, run}
use process_wrapper.Lifecycle.Ending.{IsHelpful}
use process_wrapper.Schedule.{schedule}
use process_wrapper.Wrapper.{
  completed, panicked, running, Machine, Wrapper, Turn, command, scheduler, main, outside, advance,
  advance_all, started,
}
use process_wrapper.Wrapper.WaitGroup.{IsBalanced, wrapper-IsBalanced}
use process_wrapper.Wrapper.Completion.{commands_of, completed-finished}
use process_wrapper.Wrapper.Panic.{IsSafe, advance_all-IsSafe}
use process_wrapper.Wrapper.Views.{view, seen, view-advance_all}
use process_wrapper.Wrapper.Leaving.{IsEnding, IsHelpfulTurn}
use process_wrapper.Wrapper.Ending.{IsFair, wrapper_ends}
use process_wrapper.Wrapper.Signalled.{signal_completes, reaction}
use process_wrapper.Signals.{Notifier, notify}
use process_wrapper.Clock.{seconds}
use process_wrapper.Action.{
  Action, count_label, failed_probe, sleep, push_event, restart_event, interrupt_event,
  remove_readiness_file, sigint, write_killed, cancel, send, sigkill,
}
use process_wrapper.State.{is_shutdown}
use process_wrapper.Command.{probes_undefined}
use process_wrapper.Probes.{run_probes, configured}
use process_wrapper.Lifecycle.{Tick, own, other}
use process_wrapper.Signals.Termination.{Contains, Interleaves, none_left, first, second}
use process_wrapper.Runner.{Round, Vars, initial_vars, probe_runner}
use process_wrapper.Wrapper.Views.{others}
use process_wrapper.Wrapper.Recovery.{other_actions}
use process_wrapper.Sample.{world_at, no_handles, hook_world, web_setup, web, fresh, web_command}

abbrev pub go_on : Input
go_on = record { context_done = false; lease_granted = true; launched = some (7, 1); now = 5 }

abbrev pub step : Turn
step = command 0 go_on

-- One command is started, ends, and is not started again in a shutdown.
abbrev pub whole_run : List Turn
whole_run =
    scheduler
    ∷ step
    ∷ main
    ∷ step
    ∷ scheduler
    ∷ step
    ∷ step
    ∷ main
    ∷ outside write_shutdown
    ∷ step
    ∷ step
    ∷ step
    ∷ step
    ∷ main
    ∷ []

abbrev pub commands : List Command
commands = web_command ∷ []

pub whole_run-completed : (advance_all whole_run (started fresh [] commands)).phase ≡ completed
unfolding advance_all started schedule new_state set_shutdown lookup_or insert
whole_run-completed = refl

-- With nothing to start, `NewSchedule` may call `wg.Done` before the main goroutine has called
-- `wg.Add(1)`.
empty_schedule : (advance_all (scheduler ∷ []) (started fresh [] [])).phase ≡ panicked
unfolding advance_all started schedule
empty_schedule = refl

completed-finished_example :
    (commands_of (advance_all whole_run (started fresh [] commands)).machines
      ≡ schedule [] commands)
    × All
        (λ (m : Machine). m.pc ≡ finished)
        (advance_all whole_run (started fresh [] commands)).machines
completed-finished_example = completed-finished fresh [] commands whole_run whole_run-completed

wrapper-IsBalanced_example : IsBalanced (advance_all whole_run (started fresh [] commands))
wrapper-IsBalanced_example = wrapper-IsBalanced fresh [] commands whole_run

-- The command runs, and the shutdown flag is set.
abbrev leaving : Wrapper
leaving = record {
  store = set_shutdown fresh;
  machines = record { command = web_command; pc = wait 1; calls = 2 } ∷ [];
  pending = [];
  scheduled = true;
  waiting = true;
  counter = 2;
  phase = running;
}

leaving-IsBalanced : IsBalanced leaving
leaving-IsBalanced = record {
  balance = refl;
  live = (omega arith, tt);
  ended = λ h. refl;
  done = λ h. cc;
}

leaving-IsSafe : IsSafe leaving
leaving-IsSafe = (refl, λ h. cc)

abbrev last_turns : List Turn
last_turns =
    step
    ∷ step
    ∷ outside (write_state web true)
    ∷ step
    ∷ step
    ∷ step
    ∷ step
    ∷ step
    ∷ step
    ∷ step
    ∷ step
    ∷ []

advance_all-IsSafe_example : IsSafe (advance_all last_turns leaving)
advance_all-IsSafe_example = advance_all-IsSafe leaving last_turns leaving-IsBalanced leaving-IsSafe

leaving-IsEnding : IsEnding leaving
unfolding set_shutdown
leaving-IsEnding = record {
  down = refl;
  alive = (tt, tt);
  none_left = refl;
  over = refl;
  no_stop = λ h. cc;
}

helpful : IsHelpful go_on
helpful = (refl, λ h. cc)

last_turns-IsHelpful : All IsHelpfulTurn last_turns
last_turns-IsHelpful = (
  helpful,
  (
    helpful,
    (
      tt,
      (helpful, (helpful, (helpful, (helpful, (helpful, (helpful, (helpful, (helpful, tt)))))))),
    ),
  ),
)

last_turns-IsFair : IsFair last_turns leaving
unfolding seen set_shutdown new_state lookup_or lookup
last_turns-IsFair zero m h = ground arith
last_turns-IsFair (suc j) m h = cc

wrapper_ends_example : (advance main (advance_all last_turns leaving)).phase ≡ completed
wrapper_ends_example =
    wrapper_ends last_turns leaving leaving-IsBalanced leaving-IsEnding leaving-IsSafe
      last_turns-IsHelpful last_turns-IsFair

pub in_order : (xs : List Action) → Interleaves xs [] xs
in_order [] = none_left
in_order (x ∷ xs) = first (in_order xs)

abbrev handler : Notifier
handler = record { cancel_all = 9; graceful_shutdown = seconds 3; find_process = λ pid. true }

-- The command is started, and SIGINT arrives.
abbrev interrupted : List Turn
interrupted =
    scheduler
    ∷ step
    ∷ main
    ∷ step
    ∷ scheduler
    ∷ outside write_shutdown
    ∷ outside (push_event interrupt_event)
    ∷ outside remove_readiness_file
    ∷ outside (cancel 9)
    ∷ []

abbrev interrupted_run : Wrapper
interrupted_run = advance_all interrupted (started fresh [] commands)

interrupted_run-IsFair : IsFair (step ∷ last_turns) interrupted_run
unfolding seen set_shutdown new_state lookup_or lookup insert advance_all started schedule
interrupted_run-IsFair zero m h = ground arith
interrupted_run-IsFair (suc j) m h = cc

signal_completes_example :
    (advance main (advance_all (step ∷ last_turns) interrupted_run)).phase ≡ completed
unfolding advance_all started schedule new_state set_shutdown lookup_or insert notify
signal_completes_example =
    signal_completes handler fresh fresh fresh sigint [] commands [] interrupted (step ∷ last_turns)
      tt (in_order (reaction handler fresh fresh sigint)) refl refl refl
      (helpful, last_turns-IsHelpful) interrupted_run-IsFair
