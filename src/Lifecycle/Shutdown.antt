-- ===== src/Lifecycle/Shutdown.antt =====
-- No restart once the shutdown flag is set (`Run`, pkg/process/process.go).
use process_wrapper.Prelude.{◌-◌, ◌+◌, ◌≤◌, ℕ, ◌≡◌, refl, true, List, [], ◌∷◌, arith}
use process_wrapper.State.{State}
use process_wrapper.Action.Invariant.{perform_all-shutdown}
use process_wrapper.Command.{Command}
use process_wrapper.Lifecycle.{
  Pc, acquire, test_killed, test_shutdown, retest_shutdown, retest_killed, reset_killed, pause,
  last_test, returning, finished, Input, System, Tick, own, other, move, tick, run,
}

-- The command has ended, and `Run` has not yet gone round to start it again.
abbrev pub HasExited : Pc → Type 0
HasExited (test_killed r) = Unit
HasExited (test_shutdown r) = Unit
HasExited (retest_shutdown r) = Unit
HasExited (retest_killed r) = Unit
HasExited (reset_killed r) = Unit
HasExited (pause r) = Unit
HasExited last_test = Unit
HasExited returning = Unit
HasExited finished = Unit
HasExited _ = ⊥

abbrev DownAfterExit : System → Type 0
DownAfterExit y = (y.store.shutdown ≡ true) × HasExited y.pc

pub own-DownAfterExit :
    (c : Command) (i : Input) (s : State) (pc : Pc) (n : ℕ)
    → s.shutdown ≡ true
    → HasExited pc
    → HasExited (move c i s pc n).pc
unfolding move
own-DownAfterExit c i s acquire n d h = absurd h
own-DownAfterExit c i s _ n d h = ground arith

tick-DownAfterExit :
    (c : Command) (t : Tick) (y : System) → DownAfterExit y → DownAfterExit (tick c t y)
unfolding tick
tick-DownAfterExit c (own i) y h = (
  perform_all-shutdown (move c i y.store y.pc y.calls).actions y.store h.0,
  own-DownAfterExit c i y.store y.pc y.calls h.0 h.1,
)
tick-DownAfterExit c (other a) y h = (perform_all-shutdown (a ∷ []) y.store h.0, h.1)

run-DownAfterExit :
    (c : Command) (ticks : List Tick) (y : System) → DownAfterExit y → DownAfterExit (run c ticks y)
unfolding run
run-DownAfterExit c [] y h = h
run-DownAfterExit c (t ∷ ticks) y h =
    run-DownAfterExit c ticks (tick c t y) (tick-DownAfterExit c t y h)

-- If the shutdown flag is set when a command has ended, then under every interleaving with other
-- goroutines, whatever they do to the kill flag, `Run` never goes round to start the command again.
pub shutdown_is_final :
    (c : Command) (ticks : List Tick) (y : System)
    → y.store.shutdown ≡ true
    → HasExited y.pc
    → HasExited (run c ticks y).pc
shutdown_is_final c ticks y d h = (run-DownAfterExit c ticks y (d, h)).1

-- Some call of `Run` is pending, unless all have returned.
abbrev pub IsPending : Pc → ℕ → Type 0
IsPending finished n = Unit
IsPending pc n = 1 ≤ n

-- A bound on the moves that are left.
abbrev pub left : Pc → ℕ → ℕ
left finished n = 0
left returning n = n
left last_test n = n + 1
left (pause r) n = n + 2
left (reset_killed r) n = n + 3
left (retest_killed r) n = n + 4
left (retest_shutdown r) n = n + 5
left (test_shutdown r) n = n + 6
left (test_killed r) n = n + 7
left _ n = 0

own-left :
    (c : Command) (i : Input) (s : State) (pc : Pc) (n : ℕ)
    → s.shutdown ≡ true
    → HasExited pc
    → IsPending pc n
    → let m = move c i s pc n in IsPending m.pc m.calls × (left m.pc m.calls ≤ left pc n - 1)
unfolding move
own-left c i s acquire n d h p = absurd h
own-left c i s _ n d h p = ground arith

abbrev pub own_ticks : List Tick → ℕ
own_ticks [] = 0
own_ticks (own i ∷ ticks) = 1 + own_ticks ticks
own_ticks (other a ∷ ticks) = own_ticks ticks

left-zero : (pc : Pc) (n : ℕ) → HasExited pc → IsPending pc n → left pc n ≡ 0 → pc ≡ finished
left-zero finished n h p e = refl
left-zero acquire n h p e = absurd h
left-zero _ n h p e = absurd (omega arith)

-- If the shutdown flag is set when a command has ended, all pending calls of `Run` have returned, and
-- released the wait group, after as many moves as `left` counts, under every interleaving.
pub shutdown-finishes :
    (c : Command) (ticks : List Tick) (y : System)
    → y.store.shutdown ≡ true
    → HasExited y.pc
    → IsPending y.pc y.calls
    → left y.pc y.calls ≤ own_ticks ticks
    → (run c ticks y).pc ≡ finished
unfolding run tick
shutdown-finishes c [] y d h p l = left-zero y.pc y.calls h p (omega arith)
shutdown-finishes c (own i ∷ ticks) y d h p l =
    let (pending, fewer) = own-left c i y.store y.pc y.calls d h p in
    let (down, exited) = tick-DownAfterExit c (own i) y (d, h) in
    shutdown-finishes c ticks (tick c (own i) y) down exited pending (omega arith)
shutdown-finishes c (other a ∷ ticks) y d h p l =
    shutdown-finishes c ticks (tick c (other a) y) (perform_all-shutdown (a ∷ []) y.store d) h p l
