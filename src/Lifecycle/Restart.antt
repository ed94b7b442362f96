-- ===== src/Lifecycle/Restart.antt =====
-- `Run` of a command that ends while no shutdown is requested calls itself again
-- (pkg/process/process.go).
use process_wrapper.Prelude.{◌<◌, ℕ, ◌+◌, ◌≤◌, ◌≡◌, false, List, [], ◌∷◌, arith, ◌⊎◌, inl, inr, All}
use process_wrapper.State.{State}
use process_wrapper.Action.{Action, perform, perform_all, write_shutdown}
use process_wrapper.Command.{Command}
use process_wrapper.Lifecycle.{
  Pc, acquire, test_killed, test_shutdown, retest_shutdown, retest_killed, reset_killed, pause,
  last_test, returning, finished, Input, System, Tick, own, other, move, tick, run,
}
use process_wrapper.Lifecycle.Shutdown.{own_ticks}

-- Not an action that sets the shutdown flag.
abbrev pub IsQuiet : Action → Type 0
IsQuiet write_shutdown = ⊥
IsQuiet _ = Unit

pub perform-IsQuiet :
    (a : Action) (s : State) → IsQuiet a → s.shutdown ≡ false → (perform a s).shutdown ≡ false
unfolding perform
perform-IsQuiet write_shutdown s q h = absurd q
perform-IsQuiet _ s q h = h

pub perform_all-IsQuiet :
    (actions : List Action) (s : State)
    → All IsQuiet actions
    → s.shutdown ≡ false
    → (perform_all actions s).shutdown ≡ false
unfolding perform_all
perform_all-IsQuiet [] s q h = h
perform_all-IsQuiet (a ∷ rest) s q h =
    perform_all-IsQuiet rest (perform a s) q.1 (perform-IsQuiet a s q.0 h)

-- No move of `Run` requests a shutdown.
pub move-IsQuiet :
    (c : Command) (i : Input) (s : State) (pc : Pc) (n : ℕ) → All IsQuiet (move c i s pc n).actions
unfolding move
move-IsQuiet c i s acquire n = ground arith
move-IsQuiet c i s _ n = ground arith

-- Places from which `Run` returns.
abbrev pub IsLeaving : Pc → Type 0
IsLeaving (retest_killed r) = Unit
IsLeaving returning = Unit
IsLeaving finished = Unit
IsLeaving _ = ⊥

pub own-IsQuiet :
    (c : Command) (i : Input) (s : State) (pc : Pc) (n : ℕ)
    → s.shutdown ≡ false
    → ¬ IsLeaving pc
    → let m = move c i s pc n in All IsQuiet m.actions × (¬ IsLeaving m.pc) × (n ≤ m.calls)
unfolding move
own-IsQuiet c i s acquire n d h = ground arith
own-IsQuiet c i s _ n d h = ground arith

abbrev pub IsQuietTick : Tick → Type 0
IsQuietTick (own i) = Unit
IsQuietTick (other a) = IsQuiet a

tick-IsQuiet :
    (c : Command) (t : Tick) (y : System)
    → IsQuietTick t
    → y.store.shutdown ≡ false
    → ¬ IsLeaving y.pc
    → ((tick c t y).store.shutdown ≡ false)
      × (¬ IsLeaving (tick c t y).pc)
      × (y.calls ≤ (tick c t y).calls)
unfolding tick
tick-IsQuiet c (own i) y q d h =
    let (quiet, stays, more) = own-IsQuiet c i y.store y.pc y.calls d h in
    (perform_all-IsQuiet (move c i y.store y.pc y.calls).actions y.store quiet d, stays, more)
tick-IsQuiet c (other a) y q d h = (perform-IsQuiet a y.store q d, h, omega arith)

-- While nobody requests a shutdown `Run` does not return, whatever else the other goroutines do, and
-- its pending calls do not become fewer.
pub run_without_shutdown :
    (c : Command) (ticks : List Tick) (y : System)
    → All IsQuietTick ticks
    → y.store.shutdown ≡ false
    → ¬ IsLeaving y.pc
    → (¬ IsLeaving (run c ticks y).pc) × (y.calls ≤ (run c ticks y).calls)
unfolding run
run_without_shutdown c [] y q d h = (h, omega arith)
run_without_shutdown c (t ∷ ticks) y q d h =
    let (down, stays, more) = tick-IsQuiet c t y q.0 d h in
    let (stays', more') = run_without_shutdown c ticks (tick c t y) q.1 down stays in
    (stays', omega arith)

-- The moves from the end of a command to its next call of `Run`; 0 where it has not ended.
abbrev pub until_restart : Pc → ℕ
until_restart (test_killed r) = 6
until_restart (test_shutdown r) = 5
until_restart (retest_shutdown r) = 4
until_restart (reset_killed r) = 3
until_restart (pause r) = 2
until_restart last_test = 1
until_restart _ = 0

own-until_restart :
    (c : Command) (i : Input) (s : State) (pc : Pc) (n : ℕ)
    → s.shutdown ≡ false
    → 0 < until_restart pc
    → let m = move c i s pc n in
      (m.calls ≡ n + 1)
      ⊎ ((0 < until_restart m.pc) × (until_restart m.pc < until_restart pc) × (m.calls ≡ n))
unfolding move
own-until_restart c i s acquire n d h = absurd (omega arith)
own-until_restart c i s _ n d h = ground arith

until_restart-stays : (pc : Pc) → 0 < until_restart pc → ¬ IsLeaving pc
until_restart-stays acquire h l = l
until_restart-stays (retest_killed r) h l = absurd (omega arith)
until_restart-stays returning h l = absurd (omega arith)
until_restart-stays finished h l = absurd (omega arith)
until_restart-stays _ h l = l

-- After the end of its command `Run` calls itself within six moves, which is one more pending call,
-- under every interleaving in which nobody requests a shutdown.
pub run-restarts :
    (c : Command) (ticks : List Tick) (y : System)
    → All IsQuietTick ticks
    → y.store.shutdown ≡ false
    → 0 < until_restart y.pc
    → until_restart y.pc ≤ own_ticks ticks
    → y.calls < (run c ticks y).calls
unfolding run tick
run-restarts c [] y q d h l = absurd (omega arith)
run-restarts c (own i ∷ ticks) y q d h l =
    let y' = tick c (own i) y in
    let (down, stays, more) = tick-IsQuiet c (own i) y tt d (until_restart-stays y.pc h) in
    elim (own-until_restart c i y.store y.pc y.calls d h) [
      | inl again ↦ omega (arith, again, (run_without_shutdown c ticks y' q.1 down stays).1)
      | inr (on, less, same) ↦
          omega (arith, same, run-restarts c ticks y' q.1 down on (omega (arith, less)))
    ]
run-restarts c (other a ∷ ticks) y q d h l =
    run-restarts c ticks (tick c (other a) y) q.1 (perform-IsQuiet a y.store q.0 d) h l
