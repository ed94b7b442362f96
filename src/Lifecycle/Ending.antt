-- ===== src/Lifecycle/Ending.antt =====
-- `Run` in a shutdown, wherever it stands (pkg/process/process.go).
use process_wrapper.Prelude.{
  ◌-◌, ◌+◌, ◌≤◌, ℕ, ◌≡◌, ◌≢◌, refl, true, List, [], ◌∷◌, none, arith, All,
}
use process_wrapper.State.{State}
use process_wrapper.Action.Invariant.{perform_all-shutdown}
use process_wrapper.Command.{Command}
use process_wrapper.Lifecycle.{
  Pc, acquire, await_lock, start, set_pid, set_cancel, wait, test_killed, test_shutdown,
  retest_shutdown, retest_killed, reset_killed, pause, last_test, returning, finished, fatal, Input,
  System, Tick, own, other, move, tick, run,
}
use process_wrapper.Lifecycle.Shutdown.{IsPending, own_ticks}

-- Anywhere but behind a `log.Fatalf`.
abbrev pub IsAlive : Pc → Type 0
IsAlive fatal = ⊥
IsAlive _ = Unit

-- A command that waits for its lock is granted a lease, and one that is being started can be started.
abbrev pub IsHelpful : Input → Type 0
IsHelpful i = (i.lease_granted ≡ true) × (i.launched ≢ none)

pub own-IsAlive :
    (c : Command) (i : Input) (s : State) (pc : Pc) (n : ℕ)
    → IsHelpful i
    → IsAlive pc
    → IsAlive (move c i s pc n).pc
unfolding move
own-IsAlive c i s fatal n g a = absurd a
own-IsAlive c i s _ n g a = ground arith

-- A bound on the moves that are left, the end of the process being one.
abbrev pub remaining : Pc → ℕ → ℕ
remaining finished n = 0
remaining returning n = n
remaining last_test n = n + 1
remaining (pause r) n = n + 2
remaining (reset_killed r) n = n + 3
remaining (retest_killed r) n = n + 4
remaining (retest_shutdown r) n = n + 5
remaining (test_shutdown r) n = n + 6
remaining (test_killed r) n = n + 7
remaining (wait r) n = n + 8
remaining (set_cancel r) n = n + 9
remaining (set_pid pid r) n = n + 10
remaining start n = n + 11
remaining await_lock n = n + 12
remaining acquire n = n + 13
remaining fatal n = 0

own-remaining :
    (c : Command) (i : Input) (s : State) (pc : Pc) (n : ℕ)
    → s.shutdown ≡ true
    → IsHelpful i
    → IsAlive pc
    → IsPending pc n
    → let m = move c i s pc n in
      IsPending m.pc m.calls × (remaining m.pc m.calls ≤ remaining pc n - 1)
unfolding move
own-remaining c i s fatal n d g a p = absurd a
own-remaining c i s _ n d g a p = ground arith

remaining-zero :
    (pc : Pc) (n : ℕ) → IsAlive pc → IsPending pc n → remaining pc n ≡ 0 → pc ≡ finished
remaining-zero finished n a p e = refl
remaining-zero fatal n a p e = absurd a
remaining-zero acquire n a p e = absurd (omega arith)
remaining-zero _ n a p e = absurd (omega arith)

abbrev pub IsHelpfulTick : Tick → Type 0
IsHelpfulTick (own i) = IsHelpful i
IsHelpfulTick (other a) = Unit

-- Once the shutdown flag is set, `Run` ends from wherever it stands: if the command gets the lock
-- that it may wait for, and can be started where it is being started, all pending calls have
-- returned after as many moves as `remaining` counts, the end of the process being one, under every
-- interleaving with other goroutines.
pub run-finishes :
    (c : Command) (ticks : List Tick) (y : System)
    → All IsHelpfulTick ticks
    → y.store.shutdown ≡ true
    → IsAlive y.pc
    → IsPending y.pc y.calls
    → remaining y.pc y.calls ≤ own_ticks ticks
    → (run c ticks y).pc ≡ finished
unfolding run tick
run-finishes c [] y g d a p l = remaining-zero y.pc y.calls a p (omega arith)
run-finishes c (own i ∷ ticks) y g d a p l =
    let m = move c i y.store y.pc y.calls in
    let (pending, fewer) = own-remaining c i y.store y.pc y.calls d g.0 a p in
    run-finishes c ticks (tick c (own i) y) g.1 (perform_all-shutdown m.actions y.store d)
      (own-IsAlive c i y.store y.pc y.calls g.0 a) pending (omega arith)
run-finishes c (other a ∷ ticks) y g d h p l =
    run-finishes c ticks (tick c (other a) y) g.1 (perform_all-shutdown (a ∷ []) y.store d) h p l
