-- ===== src/Wrapper/Flagged.antt =====
-- The shutdown flag through the turns of the wrapper (main.go).
use process_wrapper.Prelude.{
  ℕ, ◌+◌, ◌≡◌, refl, true, List, [], ◌∷◌, arith, ltb, Bool-cases, Option-cases, inl, inr,
}
use process_wrapper.Action.{write_shutdown, perform}
use process_wrapper.Action.Invariant.{perform_all-shutdown}
use process_wrapper.Command.{Command}
use process_wrapper.Lifecycle.{Moved, move}
use process_wrapper.Wrapper.{
  Machine, Wrapper, Turn, machine, apply_move, move_machine, schedule_step, main_step, take_turn,
  advance, advance_all, command, scheduler, main, outside, is_running,
}

apply_move-shutdown :
    (i : ℕ) (m : Machine) (r : Moved) (w : Wrapper)
    → w.store.shutdown ≡ true
    → (apply_move i m r w).store.shutdown ≡ true
unfolding apply_move
apply_move-shutdown i m r w h = elim (Bool-cases (ltb (w.counter + r.calls) m.calls)) [
  | inl below ↦ rw below h
  | inr enough ↦ rw enough (perform_all-shutdown r.actions w.store h)
]

schedule_step-shutdown :
    (cs : List Command) (w : Wrapper)
    → w.store.shutdown ≡ true
    → (schedule_step cs w).store.shutdown ≡ true
unfolding schedule_step
schedule_step-shutdown (c ∷ cs) w h = h
schedule_step-shutdown [] w h = ground arith

take_turn-shutdown :
    (t : Turn) (w : Wrapper) → w.store.shutdown ≡ true → (take_turn t w).store.shutdown ≡ true
unfolding take_turn move_machine main_step
take_turn-shutdown (command i input) w h = elim (Option-cases (machine i w.machines)) [
  | inl nobody ↦ rw nobody h
  | inr (m, here) ↦
      rw here (apply_move-shutdown i m (move m.command input w.store m.pc m.calls) w h)
]
take_turn-shutdown scheduler w h = schedule_step-shutdown w.pending w h
take_turn-shutdown main w h = ground arith
take_turn-shutdown (outside a) w h = perform_all-shutdown (a ∷ []) w.store h

advance-shutdown :
    (t : Turn) (w : Wrapper) → w.store.shutdown ≡ true → (advance t w).store.shutdown ≡ true
unfolding advance
advance-shutdown t w h = ground (arith, take_turn-shutdown t w h)

pub advance_all-shutdown :
    (turns : List Turn) (w : Wrapper)
    → w.store.shutdown ≡ true
    → (advance_all turns w).store.shutdown ≡ true
unfolding advance_all
advance_all-shutdown [] w h = h
advance_all-shutdown (t ∷ turns) w h =
    advance_all-shutdown turns (advance t w) (advance-shutdown t w h)

advance-is_running :
    (t : Turn) (w : Wrapper) → is_running (advance t w).phase ≡ true → is_running w.phase ≡ true
unfolding advance
advance-is_running t w h = ground arith

pub advance_all-is_running :
    (turns : List Turn) (w : Wrapper)
    → is_running (advance_all turns w).phase ≡ true
    → is_running w.phase ≡ true
unfolding advance_all
advance_all-is_running [] w h = h
advance_all-is_running (t ∷ turns) w h =
    advance-is_running t w (advance_all-is_running turns (advance t w) h)

pub outside-write_shutdown :
    (w : Wrapper)
    → is_running w.phase ≡ true
    → (advance (outside write_shutdown) w).store.shutdown ≡ true
unfolding advance take_turn perform
outside-write_shutdown w up = rw up refl
