-- ===== src/Wrapper/Helpful.antt =====
-- What the commands are given in a run in which every turn helps them (`Run` of
-- pkg/process/process.go).
use process_wrapper.Prelude.{
  ℕ, ◌+◌, ◌==◌, ltb, Bool, true, false, List, [], ◌∷◌, All, All-append, Bool-cases, Option-cases,
  inl, inr, if◌then◌else◌,
}
use process_wrapper.Action.{Action}
use process_wrapper.Lifecycle.{Tick, Input, move}
use process_wrapper.Lifecycle.Ending.{IsHelpful, IsHelpfulTick}
use process_wrapper.Wrapper.{
  Machine, Wrapper, Turn, machine, advance, command, scheduler, main, outside, is_running,
}
use process_wrapper.Wrapper.Views.{others, seen_move, seen_turn, seen}
use process_wrapper.Wrapper.Leaving.{IsHelpfulTurn}

others-IsHelpful : (actions : List Action) → All IsHelpfulTick (others actions)
others-IsHelpful [] = tt
others-IsHelpful (a ∷ actions) = (tt, others-IsHelpful actions)

seen_move-IsHelpful :
    (j i : ℕ) (input : Input) (m : Machine) (w : Wrapper)
    → IsHelpful input
    → All IsHelpfulTick (seen_move j i input m w)
seen_move-IsHelpful j i input m w g =
    let r = move m.command input w.store m.pc m.calls in
    elim (Bool-cases (ltb (w.counter + r.calls) m.calls)) [
      | inl below ↦ rw below tt
      | inr enough ↦ rw enough (elim (Bool-cases (i == j)) [
        | inl same ↦ rw same (g, tt)
        | inr other ↦ rw other (others-IsHelpful r.actions)
      ])
    ]

seen_turn-IsHelpful :
    (j : ℕ) (t : Turn) (w : Wrapper) → IsHelpfulTurn t → All IsHelpfulTick (seen_turn j t w)
seen_turn-IsHelpful j (command i input) w g = elim (Option-cases (machine i w.machines)) [
  | inl nobody ↦ rw nobody tt
  | inr (m, here) ↦ rw here (seen_move-IsHelpful j i input m w g)
]
seen_turn-IsHelpful j scheduler w g = tt
seen_turn-IsHelpful j main w g = tt
seen_turn-IsHelpful j (outside a) w g = (tt, tt)

if-IsHelpful :
    (b : Bool) (ticks : List Tick)
    → All IsHelpfulTick ticks
    → All IsHelpfulTick (if b then ticks else [])
if-IsHelpful true ticks h = h
if-IsHelpful false ticks h = tt

pub seen-IsHelpful :
    (j : ℕ) (turns : List Turn) (w : Wrapper)
    → All IsHelpfulTurn turns
    → All IsHelpfulTick (seen j turns w)
unfolding seen
seen-IsHelpful j [] w g = tt
seen-IsHelpful j (t ∷ turns) w g =
    All-append IsHelpfulTick (if is_running w.phase then seen_turn j t w else [])
      (seen j turns (advance t w))
      (if-IsHelpful (is_running w.phase) (seen_turn j t w) (seen_turn-IsHelpful j t w g.0))
      (seen-IsHelpful j turns (advance t w) g.1)
