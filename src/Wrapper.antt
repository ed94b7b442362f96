-- ===== src/Wrapper.antt =====
-- The wrapper as a whole: the end of `StartProcessWrapper` in main.go, where the main goroutine waits
-- on the wait group, the goroutine of `NewSchedule` (pkg/process/process.go), and the goroutine of
-- each command that it starts, over one shared state.
pub mod WaitGroup
pub mod Completion
pub mod Panic
pub mod Views
pub mod Leaving
pub mod Recovery
pub mod Memory
pub mod Seen
pub mod Restarting
pub mod Machines
pub mod Requested
pub mod Moves
pub mod Cancelled
pub mod Flagged
pub mod Alive
pub mod Signalled
pub mod Helpful
pub mod Ending
mod Examples
use process_wrapper.Prelude.{
  ℕ, zero, suc, ◌+◌, ◌-◌, ◌==◌, Bool, true, false, List, [], ◌∷◌, ◌++◌, Option, none, some, Str,
  if◌then◌else◌, ltb,
}
use process_wrapper.State.{State}
use process_wrapper.Action.{Action, perform, perform_all}
use process_wrapper.Command.{Command}
use process_wrapper.Lifecycle.{Pc, acquire, fatal, Input, Moved, move}
use process_wrapper.Schedule.{schedule}

-- `completed` is the return of `main`, `stopped` a `log.Fatalf`, `panicked` a negative counter of the
-- wait group. In each the program is over.
pub data Phase : Type 0 where
  running completed stopped panicked : Phase

-- The goroutine of a command, as far as it has come.
pub record Machine : Type 0 where
  pub command : Command
  pub pc : Pc
  pub calls : ℕ

pub record Wrapper : Type 0 where
  pub store : State
  pub machines : List Machine
  -- the commands that `NewSchedule` has yet to start, and whether it has called `wg.Done`
  pub pending : List Command
  pub scheduled : Bool
  -- whether the main goroutine has called `wg.Add(1)`, after which it waits
  pub waiting : Bool
  pub counter : ℕ
  pub phase : Phase

pub data Turn : Type 0 where
  -- a move of the command that was started as number `i`
  command : ℕ → Input → Turn
  -- a step of `NewSchedule`, a step of the main goroutine
  scheduler : Turn
  main : Turn
  -- an action of any other goroutine
  outside : Action → Turn

abbrev pub is_fatal : Pc → Bool
is_fatal fatal = true
is_fatal _ = false

-- The machine number `i`.
abbrev pub machine : ℕ → List Machine → Option Machine
machine i [] = none
machine zero (m ∷ ms) = some m
machine (suc i) (m ∷ ms) = machine i ms

abbrev pub set_machine : ℕ → Machine → List Machine → List Machine
set_machine i m' [] = []
set_machine zero m' (m ∷ ms) = m' ∷ ms
set_machine (suc i) m' (m ∷ ms) = m ∷ set_machine i m' ms

-- What a move makes of the wrapper. A pending call holds one unit of the wait group: a restart is a
-- `wg.Add(1)`, a return a `wg.Done`, which panics below zero.
unfoldable pub apply_move : ℕ → Machine → Moved → Wrapper → Wrapper
unfolding perform_all
apply_move i m r w =
    if ltb (w.counter + r.calls) m.calls then record w { phase = panicked } else record w {
      store = perform_all r.actions w.store;
      machines = set_machine i (record m { pc = r.pc; calls = r.calls }) w.machines;
      counter = w.counter + r.calls - m.calls;
      phase = if is_fatal r.pc then stopped else w.phase;
    }

unfoldable pub move_machine : ℕ → Input → Option Machine → Wrapper → Wrapper
unfolding apply_move move
move_machine i input none w = w
move_machine i input (some m) w = apply_move i m (move m.command input w.store m.pc m.calls) w

-- `wg.Add(1)` and `go Run` for the next command; after the last the `wg.Done` of `NewSchedule`.
unfoldable pub schedule_step : List Command → Wrapper → Wrapper
schedule_step (c ∷ cs) w = record w {
  machines = w.machines ++ record { command = c; pc = acquire; calls = 1 } ∷ [];
  pending = cs;
  counter = w.counter + 1;
}
schedule_step [] w =
    if w.scheduled
    then w
    else if w.counter == 0
    then record w { phase = panicked }
    else record w { scheduled = true; counter = w.counter - 1 }

-- `wg.Add(1)`, and then `wg.Wait()`.
unfoldable pub main_step : Wrapper → Wrapper
main_step w =
    if w.waiting
    then (if w.counter == 0 then record w { phase = completed } else w)
    else record w { waiting = true; counter = w.counter + 1 }

unfoldable pub take_turn : Turn → Wrapper → Wrapper
unfolding move_machine schedule_step main_step perform
take_turn (command i input) w = move_machine i input (machine i w.machines) w
take_turn scheduler w = schedule_step w.pending w
take_turn main w = main_step w
take_turn (outside a) w = record w { store = perform a w.store }

abbrev pub is_running : Phase → Bool
is_running running = true
is_running _ = false

-- Nothing happens any more after the end of the program.
unfoldable pub advance : Turn → Wrapper → Wrapper
unfolding take_turn
advance t w = if is_running w.phase then take_turn t w else w

unfoldable pub advance_all : List Turn → Wrapper → Wrapper
unfolding advance
advance_all [] w = w
advance_all (t ∷ turns) w = advance_all turns (advance t w)

-- The wrapper when `StartProcessWrapper` has created the wait group.
unfoldable pub started : State → List Str → List Command → Wrapper
unfolding schedule
started s skip_commands commands = record {
  store = s;
  machines = [];
  pending = schedule skip_commands commands;
  scheduled = false;
  waiting = false;
  counter = 0;
  phase = running;
}
