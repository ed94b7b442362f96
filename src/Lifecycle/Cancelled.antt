-- ===== src/Lifecycle/Cancelled.antt =====
-- `Run` when the context of the command is done (pkg/process/process.go): a command made with it does
-- not start.
use process_wrapper.Prelude.{
  ℕ, ◌<◌, ◌≤◌, ◌≡◌, ◌⊎◌, refl, false, true, List, [], ◌∷◌, none, arith, All, inl, inr,
}
use process_wrapper.State.{State}
use process_wrapper.Command.{Command}
use process_wrapper.Lifecycle.{Pc, Input, move, System, Tick, own, other, tick, run}
use process_wrapper.Lifecycle.Pc.{
  acquire, await_lock, start, wait, test_killed, test_shutdown, retest_shutdown, reset_killed,
  pause, last_test, fatal,
}
use process_wrapper.Lifecycle.Restart.{IsQuiet, move-IsQuiet, perform-IsQuiet, perform_all-IsQuiet}
use process_wrapper.Lifecycle.Shutdown.{own_ticks}

-- The context is done, and no command starts.
abbrev pub IsCancelled : Input → Type 0
IsCancelled i = (i.context_done ≡ true) × (i.launched ≡ none)

abbrev pub IsCancelledTick : Tick → Type 0
IsCancelledTick (own i) = IsCancelled i
IsCancelledTick (other a) = IsQuiet a

-- The moves from a place to the failure of the next start; 0 where there may be none.
abbrev pub until_fatal : Pc → ℕ
until_fatal start = 1
until_fatal await_lock = 2
until_fatal acquire = 3
until_fatal last_test = 4
until_fatal (pause r) = 5
until_fatal (reset_killed r) = 6
until_fatal (retest_shutdown r) = 7
until_fatal (test_shutdown r) = 8
until_fatal (test_killed r) = 9
until_fatal (wait r) = 10
until_fatal _ = 0

own-until_fatal :
    (c : Command) (i : Input) (s : State) (pc : Pc) (n : ℕ)
    → s.shutdown ≡ false
    → IsCancelled i
    → 0 < until_fatal pc
    → let m = move c i s pc n in
      (m.pc ≡ fatal) ⊎ ((0 < until_fatal m.pc) × (until_fatal m.pc < until_fatal pc))
unfolding move
own-until_fatal c i s acquire n d x h = ground arith
own-until_fatal c i s _ n d x h = ground arith

run-fatal :
    (c : Command) (ticks : List Tick) (y : System) → y.pc ≡ fatal → (run c ticks y).pc ≡ fatal
unfolding run tick move
run-fatal c [] y h = h
run-fatal c (own i ∷ ticks) y h = run-fatal c ticks (tick c (own i) y) (rw h refl)
run-fatal c (other a ∷ ticks) y h = run-fatal c ticks (tick c (other a) y) h

-- When the context is done while its process runs, the next start of the command fails, ten moves after
-- the end of the process at the latest, if nobody requests a shutdown.
pub run-cancelled :
    (c : Command) (ticks : List Tick) (y : System)
    → All IsCancelledTick ticks
    → y.store.shutdown ≡ false
    → 0 < until_fatal y.pc
    → until_fatal y.pc ≤ own_ticks ticks
    → (run c ticks y).pc ≡ fatal
unfolding run tick
run-cancelled c [] y x d h l = absurd (omega arith)
run-cancelled c (own i ∷ ticks) y x d h l =
    let quiet = move-IsQuiet c i y.store y.pc y.calls in
    let down = perform_all-IsQuiet (move c i y.store y.pc y.calls).actions y.store quiet d in
    elim (own-until_fatal c i y.store y.pc y.calls d x.0 h) [
      | inl dies ↦ run-fatal c ticks (tick c (own i) y) dies
      | inr (more, less) ↦ run-cancelled c ticks (tick c (own i) y) x.1 down more (omega arith)
    ]
run-cancelled c (other a ∷ ticks) y x d h l =
    run-cancelled c ticks (tick c (other a) y) x.1 (perform-IsQuiet a y.store x.0 d) h l
