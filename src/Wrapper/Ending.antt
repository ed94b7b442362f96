-- ===== src/Wrapper/Ending.antt =====
-- The end of the wrapper after a shutdown (main.go, and `Run` of pkg/process/process.go).
use process_wrapper.Prelude.{
  ℕ, zero, suc, ◌≤◌, ◌≡◌, ◌≢◌, refl, List, [], ◌∷◌, none, some, arith, All, Option-cases, inl, inr,
  ◌⊎◌,
}
use process_wrapper.Lifecycle.{Pc, Moved, System, finished, move}
use process_wrapper.Lifecycle.Shutdown.{IsPending, own_ticks}
use process_wrapper.Lifecycle.Ending.{remaining, run-finishes}
use process_wrapper.Wrapper.{
  Phase, running, completed, stopped, panicked, Machine, Wrapper, Turn, machine, set_machine,
  apply_move, move_machine, schedule_step, main_step, take_turn, advance, advance_all, command,
  scheduler, main, outside,
}
use process_wrapper.Wrapper.WaitGroup.{
  IsBalanced, HoldsUnits, IsLiveMachine, total_calls, advance_all-IsBalanced,
}
use process_wrapper.Wrapper.Panic.{IsSafe, advance_all-IsSafe}
use process_wrapper.Wrapper.Views.{view, seen, view-advance_all}
use process_wrapper.Wrapper.Helpful.{seen-IsHelpful}
use process_wrapper.Wrapper.Leaving.{
  IsAliveMachine, IsHelpfulTurn, IsEnding, advance-IsEnding, advance_all-IsEnding,
}
use process_wrapper.Wrapper.Machines.{All-machine}

machine-none-set_machine :
    (i j : ℕ) (m' : Machine) (ms : List Machine)
    → machine j ms ≡ none
    → machine j (set_machine i m' ms) ≡ none
machine-none-set_machine i j m' [] h = refl
machine-none-set_machine zero zero m' (n ∷ ms) h = cc
machine-none-set_machine zero (suc j) m' (n ∷ ms) h = h
machine-none-set_machine (suc i) zero m' (n ∷ ms) h = h
machine-none-set_machine (suc i) (suc j) m' (n ∷ ms) h = machine-none-set_machine i j m' ms h

apply_move-machine-none :
    (i j : ℕ) (m : Machine) (r : Moved) (w : Wrapper)
    → machine j w.machines ≡ none
    → machine j (apply_move i m r w).machines ≡ none
unfolding apply_move
apply_move-machine-none i j m r w h =
    ground
      (arith, machine-none-set_machine i j (record m { pc = r.pc; calls = r.calls }) w.machines h)

take_turn-machine-none :
    (j : ℕ) (t : Turn) (w : Wrapper)
    → IsEnding w
    → machine j w.machines ≡ none
    → machine j (take_turn t w).machines ≡ none
unfolding take_turn move_machine
take_turn-machine-none j (command i input) w e h = elim (Option-cases (machine i w.machines)) [
  | inl nobody ↦ rw nobody h
  | inr (m, here) ↦
      rw here (apply_move-machine-none i j m (move m.command input w.store m.pc m.calls) w h)
]
take_turn-machine-none j scheduler w e h =
    unfold schedule_step in ground (arith, e.none_left, e.over)
take_turn-machine-none j main w e h = unfold main_step in ground arith
take_turn-machine-none j (outside a) w e h = h

advance-machine-none :
    (j : ℕ) (t : Turn) (w : Wrapper)
    → IsEnding w
    → machine j w.machines ≡ none
    → machine j (advance t w).machines ≡ none
unfolding advance
advance-machine-none j t w e h = ground (arith, take_turn-machine-none j t w e h)

advance_all-machine-none :
    (j : ℕ) (turns : List Turn) (w : Wrapper)
    → All IsHelpfulTurn turns
    → IsEnding w
    → machine j w.machines ≡ none
    → machine j (advance_all turns w).machines ≡ none
unfolding advance_all
advance_all-machine-none j [] w g e h = h
advance_all-machine-none j (t ∷ turns) w g e h =
    advance_all-machine-none j turns (advance t w) g.1 (advance-IsEnding t w g.0 e)
      (advance-machine-none j t w e h)

-- Every command makes the moves that its end needs, the end of its process included.
abbrev pub IsFair : List Turn → Wrapper → Type 0
IsFair turns w =
    (j : ℕ) (m : Machine)
    → machine j w.machines ≡ some m
    → remaining m.pc m.calls ≤ own_ticks (seen j turns w)

abbrev IsDone : Machine → Type 0
IsDone m = m.pc ≡ finished

HoldsUnits-IsPending : (pc : Pc) (n : ℕ) → HoldsUnits pc n → IsPending pc n
HoldsUnits-IsPending finished n h = tt
HoldsUnits-IsPending Pc.acquire n h = h
HoldsUnits-IsPending _ n h = h

machine-finishes :
    (j : ℕ) (m m' : Machine) (turns : List Turn) (w : Wrapper)
    → IsBalanced w
    → IsEnding w
    → All IsHelpfulTurn turns
    → IsFair turns w
    → machine j w.machines ≡ some m
    → machine j (advance_all turns w).machines ≡ some m'
    → IsDone m'
machine-finishes j m m' turns w b e g fair here there =
    let y : System = record { store = w.store; pc = m.pc; calls = m.calls } in
    let viewed : view j w ≡ some (m.command, y) = rw here refl in
    let after = view-advance_all j turns w m.command y viewed in
    let done =
      run-finishes m.command (seen j turns w) y (seen-IsHelpful j turns w g) e.down
        (All-machine IsAliveMachine j m w.machines e.alive here)
        (HoldsUnits-IsPending m.pc m.calls (All-machine IsLiveMachine j m w.machines b.live here))
        (fair j m here) in
    ground (arith, after, done, there)

all-machines :
    (ms : List Machine) → ((j : ℕ) (m : Machine) → machine j ms ≡ some m → IsDone m) → All IsDone ms
all-machines [] h = tt
all-machines (m ∷ ms) h = (h 0 m refl, all-machines ms (λ j n e. h (suc j) n e))

total_calls-IsDone : (ms : List Machine) → All IsLiveMachine ms → All IsDone ms → total_calls ms ≡ 0
total_calls-IsDone [] b h = refl
total_calls-IsDone (m ∷ ms) b h =
    let none_held : m.calls ≡ 0 = rw h.0 at b.0 in omega (arith, total_calls-IsDone ms b.1 h.1)

advance_all-IsDone :
    (turns : List Turn) (w : Wrapper)
    → IsBalanced w
    → IsEnding w
    → All IsHelpfulTurn turns
    → IsFair turns w
    → All IsDone (advance_all turns w).machines
advance_all-IsDone turns w b e g fair = all-machines (advance_all turns w).machines λ j m' there.
    elim (Option-cases (machine j w.machines)) [
      | inl nobody ↦ absurd (let gone = advance_all-machine-none j turns w g e nobody in cc)
      | inr (m, here) ↦ machine-finishes j m m' turns w b e g fair here there
    ]

Phase-alive : (p : Phase) → p ≢ stopped → p ≢ panicked → (p ≡ running) ⊎ (p ≡ completed)
Phase-alive running h k = inl refl
Phase-alive completed h k = inr refl
Phase-alive stopped h k = absurd (h refl)
Phase-alive panicked h k = absurd (k refl)

main-completes :
    (w : Wrapper)
    → IsBalanced w
    → IsEnding w
    → IsSafe w
    → total_calls w.machines ≡ 0
    → (advance main w).phase ≡ completed
unfolding advance take_turn main_step
main-completes w b e safe nothing =
    let no_units : w.counter ≡ 0 = ground (arith, b.balance, e.over) in
    elim (Phase-alive w.phase e.no_stop safe.1) [
      | inl up ↦ ground (arith, no_units, safe.0)
      | inr over ↦ ground arith
    ]

-- After a shutdown the wrapper ends: once the shutdown flag is set, all commands have been started and
-- the main goroutine waits, then wherever the commands stand (none having failed to start), under every
-- interleaving in which each command makes the moves that its end needs, the end of its process
-- being one, `main` returns with its next step. (A command that waits for its lock gets it, and one
-- that is just being started can be started.)
pub wrapper_ends :
    (turns : List Turn) (w : Wrapper)
    → IsBalanced w
    → IsEnding w
    → IsSafe w
    → All IsHelpfulTurn turns
    → IsFair turns w
    → (advance main (advance_all turns w)).phase ≡ completed
wrapper_ends turns w b e safe g fair =
    let b' = advance_all-IsBalanced turns w b in
    main-completes (advance_all turns w) b' (advance_all-IsEnding turns w g e)
      (advance_all-IsSafe w turns b safe)
      (total_calls-IsDone (advance_all turns w).machines b'.live
        (advance_all-IsDone turns w b e g fair))
