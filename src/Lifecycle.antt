-- ===== src/Lifecycle.antt =====
-- The life of one command: `Run` and `AcquireSharedLock` of pkg/process/process.go, as a machine
-- that makes one move for each read or write of what it shares with other goroutines. Between two
-- moves the others may do any actions; a schedule is a list of ticks.
pub mod Shutdown
pub mod Restart
pub mod Cancelled
pub mod Starting
pub mod Ending
mod Examples
use process_wrapper.Prelude.{
  ℕ, ◌+◌, ◌-◌, ◌==◌, Bool, true, false, List, [], ◌∷◌, Option, none, some, Str, is_some,
  if◌then◌else◌,
}
use process_wrapper.Clock.{Time, seconds}
use process_wrapper.State.{State, CancelFunc, is_shutdown, is_killed}
use process_wrapper.Action.{
  Action, write_pid, write_cancel, write_killed, drop_state, cancel, sleep, count_label, restarted,
  perform, perform_all,
}
use process_wrapper.Command.{Command, Probe}

-- Where `Run` stands; each constructor names what it does next.
pub data Pc : Type 0 where
  -- `AcquireSharedLock`: its entry, and its loop
  acquire : Pc
  await_lock : Pc
  -- `cmd.Start`, `SetPid`, `SetCancelRoutine`, `cmd.Wait`
  start : Pc
  set_pid : ℕ → CancelFunc → Pc
  set_cancel : CancelFunc → Pc
  wait : CancelFunc → Pc
  -- `!c.s.IsKilled(c.Name) && c.s.IsShutdown()`
  test_killed : CancelFunc → Pc
  test_shutdown : CancelFunc → Pc
  -- `!c.s.IsShutdown() || c.s.IsKilled(c.Name)`
  retest_shutdown : CancelFunc → Pc
  retest_killed : CancelFunc → Pc
  -- `SetKillState`, the sleep and `cancelRoutines`, the last test of the flag
  reset_killed : CancelFunc → Pc
  pause : CancelFunc → Pc
  last_test : Pc
  -- the deferred `wg.Done` of this call and of those it was deferred in
  returning : Pc
  finished : Pc
  -- `log.Fatalf`
  fatal : Pc

-- What a move is told from outside; each field is read where it applies.
pub record Input : Type 0 where
  -- the context of the wrapper is done; a lease was granted
  pub context_done : Bool
  pub lease_granted : Bool
  -- the pid and the new context of a command that starts; `none` is a failure to start
  pub launched : Option (ℕ × CancelFunc)
  pub now : Time

-- The actions of a move, the next place, and the calls of `Run` that have not returned: each holds
-- one unit of the wait group.
pub record Moved : Type 0 where
  pub actions : List Action
  pub pc : Pc
  pub calls : ℕ

abbrev go : List Action → Pc → ℕ → Moved
go actions pc calls = record { actions = actions; pc = pc; calls = calls }

-- Whether the command keeps a shared lock.
unfoldable pub keeps_lock : Command → Bool
keeps_lock c = elim c.readiness [ none ↦ false | some p ↦ is_some p.keep_shared_lock ]

unfoldable pub launch : Option (ℕ × CancelFunc) → ℕ → Moved
launch none n = go [] fatal n
launch (some (pid, cancel_routines)) n = go [] (set_pid pid cancel_routines) n

-- One move of `Run` of command `c` with `n` calls pending, in shared state `s`.
unfoldable pub move : Command → Input → State → Pc → ℕ → Moved
unfolding keeps_lock launch is_killed is_shutdown
move c i s acquire n =
    if keeps_lock c then go (drop_state c.name ∷ []) await_lock n else go [] start n
move c i s await_lock n =
    if i.context_done
    then go [] start n
    else if i.lease_granted
    then go [] start n
    else go [] await_lock n
move c i s start n = launch i.launched n
move c i s (set_pid pid r) n = go (write_pid c.name pid i.now ∷ []) (set_cancel r) n
move c i s (set_cancel r) n = go (write_cancel c.name r ∷ []) (wait r) n
move c i s (wait r) n = go [] (test_killed r) n
move c i s (test_killed r) n =
    if is_killed c.name s then go [] (retest_shutdown r) n else go [] (test_shutdown r) n
move c i s (test_shutdown r) n =
    if is_shutdown s then go (cancel r ∷ []) returning n else go [] (retest_shutdown r) n
move c i s (retest_shutdown r) n =
    if is_shutdown s then go [] (retest_killed r) n else go [] (reset_killed r) n
move c i s (retest_killed r) n =
    if is_killed c.name s then go [] (reset_killed r) n else go [] returning n
move c i s (reset_killed r) n =
    go (write_killed c.name false ∷ count_label restarted ∷ []) (pause r) n
move c i s (pause r) n = go (sleep (seconds 1) ∷ cancel r ∷ []) last_test n
move c i s last_test n = if is_shutdown s then go [] returning n else go [] acquire (n + 1)
move c i s returning n = go [] (if n == 1 then finished else returning) (n - 1)
move c i s finished n = go [] finished n
move c i s fatal n = go [] fatal n

-- The shared state beside the machine of one command.
pub record System : Type 0 where
  pub store : State
  pub pc : Pc
  pub calls : ℕ

-- A move of the command's own goroutine, or an action of any other.
pub data Tick : Type 0 where
  own : Input → Tick
  other : Action → Tick

abbrev settle : State → Moved → System
settle s m = record { store = perform_all m.actions s; pc = m.pc; calls = m.calls }

unfoldable pub tick : Command → Tick → System → System
unfolding move perform_all
tick c (own i) y = settle y.store (move c i y.store y.pc y.calls)
tick c (other a) y = record y { store = perform a y.store }

unfoldable pub run : Command → List Tick → System → System
unfolding tick
run c [] y = y
run c (t ∷ ticks) y = run c ticks (tick c t y)

-- `go c.Run(ctx, wg)`, after its `wg.Add(1)`.
abbrev pub launched_in : State → System
launched_in s = record { store = s; pc = acquire; calls = 1 }
