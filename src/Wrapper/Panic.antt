-- ===== src/Wrapper/Panic.antt =====
-- Why the counter of the wait group does not go below zero (main.go).
use process_wrapper.Prelude.{
  ℕ, zero, suc, ◌+◌, ◌≤◌, ◌≡◌, ◌≢◌, true, false, List, [], ◌∷◌, some, arith, ltb, Bool-cases,
  Option-cases, inl, inr,
}
use process_wrapper.Command.{Command}
use process_wrapper.Lifecycle.{move, Moved}
use process_wrapper.Wrapper.{
  is_fatal, panicked, Machine, Wrapper, Turn, machine, apply_move, move_machine, schedule_step,
  main_step, take_turn, advance, advance_all, command, scheduler, main, outside, is_running,
}
use process_wrapper.Wrapper.WaitGroup.{advance-IsBalanced, IsBalanced, total_calls}

total_calls-machine :
    (i : ℕ) (m : Machine) (ms : List Machine) → machine i ms ≡ some m → m.calls ≤ total_calls ms
total_calls-machine i m [] h = cc
total_calls-machine zero m (n ∷ ms) h = ground arith
total_calls-machine (suc i) m (n ∷ ms) h = omega (arith, total_calls-machine i m ms h)

-- The main goroutine waits, and the program has not panicked.
abbrev pub IsSafe : Wrapper → Type 0
IsSafe w = (w.waiting ≡ true) × (w.phase ≢ panicked)

apply_move-IsSafe :
    (i : ℕ) (m : Machine) (r : Moved) (w : Wrapper)
    → machine i w.machines ≡ some m
    → IsBalanced w
    → IsSafe w
    → IsSafe (apply_move i m r w)
unfolding apply_move
apply_move-IsSafe i m r w here b (waits, up) =
    let enough : ltb (w.counter + r.calls) m.calls ≡ false =
      ground (arith, b.balance, total_calls-machine i m w.machines here) in
    elim (Bool-cases (is_fatal r.pc)) [
      | inl dies ↦ rw (enough, dies) (waits, λ h. cc)
      | inr goes_on ↦ rw (enough, goes_on) (waits, up)
    ]

schedule_step-IsSafe :
    (cs : List Command) (w : Wrapper) → IsBalanced w → IsSafe w → IsSafe (schedule_step cs w)
unfolding schedule_step
schedule_step-IsSafe (c ∷ cs) w b safe = safe
schedule_step-IsSafe [] w b (waits, up) = (ground arith, λ h. ground (arith, b.balance, up))

take_turn-IsSafe : (t : Turn) (w : Wrapper) → IsBalanced w → IsSafe w → IsSafe (take_turn t w)
unfolding take_turn move_machine main_step
take_turn-IsSafe (command i input) w b safe = elim (Option-cases (machine i w.machines)) [
  | inl nobody ↦ rw nobody safe
  | inr (m, here) ↦
      rw here (apply_move-IsSafe i m (move m.command input w.store m.pc m.calls) w here b safe)
]
take_turn-IsSafe scheduler w b safe = schedule_step-IsSafe w.pending w b safe
take_turn-IsSafe main w b (waits, up) = (ground arith, λ h. ground (arith, up))
take_turn-IsSafe (outside a) w b safe = safe

advance-IsSafe : (t : Turn) (w : Wrapper) → IsBalanced w → IsSafe w → IsSafe (advance t w)
unfolding advance
advance-IsSafe t w b safe = elim (Bool-cases (is_running w.phase)) [
  | inl up ↦ rw up (take_turn-IsSafe t w b safe)
  | inr over ↦ rw over safe
]

-- Once the main goroutine has added its unit, the counter of the wait group never goes below zero,
-- whatever happens after: the program does not panic.
pub advance_all-IsSafe :
    (w : Wrapper) (turns : List Turn) → IsBalanced w → IsSafe w → IsSafe (advance_all turns w)
unfolding advance_all
advance_all-IsSafe w [] b safe = safe
advance_all-IsSafe w (t ∷ turns) b safe =
    advance_all-IsSafe (advance t w) turns (advance-IsBalanced t w b) (advance-IsSafe t w b safe)
