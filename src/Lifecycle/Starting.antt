-- ===== src/Lifecycle/Starting.antt =====
-- From the end of a process to the start of the next one (`Run` and `SetPid`, pkg/process/process.go).
use process_wrapper.Prelude.{
  ℕ, ◌<◌, ◌≤◌, ◌≡◌, ◌⊎◌, refl, false, List, [], ◌∷◌, ◌++◌, Str, arith, All, inl, inr,
}
use process_wrapper.Clock.{Time}
use process_wrapper.State.{State}
use process_wrapper.Action.{Action, write_pid}
use process_wrapper.Command.{Command}
use process_wrapper.Lifecycle.{Pc, Input, move, System, Tick, own, other, tick}
use process_wrapper.Lifecycle.Pc.{
  acquire, await_lock, start, set_pid, wait, test_killed, test_shutdown, retest_shutdown,
  reset_killed, pause, last_test,
}
use process_wrapper.Lifecycle.Ending.{IsHelpful, IsHelpfulTick}
use process_wrapper.Lifecycle.Restart.{
  IsQuietTick, move-IsQuiet, perform-IsQuiet, perform_all-IsQuiet,
}
use process_wrapper.Lifecycle.Shutdown.{own_ticks}
use process_wrapper.Signals.Termination.{Contains, Contains-append_left, Contains-append_right}

-- The actions of the moves of `Run`.
abbrev pub own_actions : Command → List Tick → System → List Action
own_actions c [] y = []
own_actions c (own i ∷ ticks) y =
    (move c i y.store y.pc y.calls).actions ++ own_actions c ticks (tick c (own i) y)
own_actions c (other a ∷ ticks) y = own_actions c ticks (tick c (other a) y)

-- The pid of a process that was started for the command is recorded.
abbrev pub SomeStart : Str → List Action → Type 0
SomeStart name actions = (pid : ℕ) × (t : Time) × Contains (write_pid name pid t) actions

-- The moves from a place to the next record of a pid; 0 where there may be none.
abbrev pub until_start : Pc → ℕ
until_start (set_pid pid r) = 1
until_start start = 2
until_start await_lock = 3
until_start acquire = 4
until_start last_test = 5
until_start (pause r) = 6
until_start (reset_killed r) = 7
until_start (retest_shutdown r) = 8
until_start (test_shutdown r) = 9
until_start (test_killed r) = 10
until_start (wait r) = 11
until_start _ = 0

own-until_start :
    (c : Command) (i : Input) (s : State) (pc : Pc) (n : ℕ)
    → s.shutdown ≡ false
    → IsHelpful i
    → 0 < until_start pc
    → let m = move c i s pc n in
      SomeStart c.name m.actions ⊎ ((0 < until_start m.pc) × (until_start m.pc < until_start pc))
unfolding move
own-until_start c i s acquire n d x h = ground arith
own-until_start c i s (set_pid pid r) n d x h = inl (pid, i.now, inl refl)
own-until_start c i s _ n d x h = ground arith

-- After the end of its process a command gets a new one, whose pid is recorded within ten further moves,
-- if nobody requests a shutdown, the command gets the lock that it may wait for, and it can be
-- started.
pub run-starts :
    (c : Command) (ticks : List Tick) (y : System)
    → All IsHelpfulTick ticks
    → All IsQuietTick ticks
    → y.store.shutdown ≡ false
    → 0 < until_start y.pc
    → until_start y.pc ≤ own_ticks ticks
    → SomeStart c.name (own_actions c ticks y)
unfolding tick
run-starts c [] y x q d h l = absurd (omega arith)
run-starts c (own i ∷ ticks) y x q d h l =
    let m = move c i y.store y.pc y.calls in
    let down = perform_all-IsQuiet m.actions y.store (move-IsQuiet c i y.store y.pc y.calls) d in
    elim (own-until_start c i y.store y.pc y.calls d x.0 h) [
      | inl (pid, t, here) ↦
          (pid, t, Contains-append_left (write_pid c.name pid t) m.actions _ here)
      | inr (more, less) ↦
          let (pid, t, later) =
            run-starts c ticks (tick c (own i) y) x.1 q.1 down more (omega arith) in
          (pid, t, Contains-append_right (write_pid c.name pid t) m.actions _ later)
    ]
run-starts c (other a ∷ ticks) y x q d h l =
    run-starts c ticks (tick c (other a) y) x.1 q.1 (perform-IsQuiet a y.store q.0 d) h l

-- A command whose process runs gets a new one within eleven moves, the end of the process being the first.
pub running-starts :
    (c : Command) (ticks : List Tick) (y : System) (r : ℕ)
    → All IsHelpfulTick ticks
    → All IsQuietTick ticks
    → y.store.shutdown ≡ false
    → y.pc ≡ wait r
    → 11 ≤ own_ticks ticks
    → SomeStart c.name (own_actions c ticks y)
running-starts c ticks y r x q d w n = run-starts c ticks y x q d (rw w (omega arith)) (rw w n)
