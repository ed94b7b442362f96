-- ===== src/Wrapper/Seen.antt =====
-- What a command sees of turns in which nobody requests a shutdown (main.go, and `Run` of
-- pkg/process/process.go).
use process_wrapper.Prelude.{
  ℕ, List, [], ◌∷◌, All, All-append, ltb, ◌==◌, ◌+◌, Bool-cases, Option-cases, inl, inr,
  if◌then◌else◌,
}
use process_wrapper.Action.{Action}
use process_wrapper.Lifecycle.{other, own, Tick, Input, move}
use process_wrapper.Lifecycle.Restart.{move-IsQuiet, IsQuiet}
use process_wrapper.Wrapper.{
  Machine, Wrapper, Turn, machine, command, scheduler, main, outside, advance, is_running,
}
use process_wrapper.Wrapper.Views.{seen, seen_turn, seen_move, others}

-- The input of each of its own moves meets a predicate, and the other actions request no shutdown.
abbrev pub Sees : (Input → Type 0) → Tick → Type 0
Sees P (own i) = P i
Sees P (other a) = IsQuiet a

abbrev pub Takes : (Input → Type 0) → Turn → Type 0
Takes P (command i input) = P input
Takes P (outside a) = IsQuiet a
Takes P _ = Unit

others-Sees :
    (P : Input → Type 0) (actions : List Action)
    → All IsQuiet actions
    → All (Sees P) (others actions)
others-Sees P [] q = tt
others-Sees P (a ∷ actions) q = (q.0, others-Sees P actions q.1)

seen_move-Sees :
    (P : Input → Type 0) (j i : ℕ) (input : Input) (m : Machine) (w : Wrapper)
    → P input
    → All (Sees P) (seen_move j i input m w)
seen_move-Sees P j i input m w p =
    let r = move m.command input w.store m.pc m.calls in
    elim (Bool-cases (ltb (w.counter + r.calls) m.calls)) [
      | inl below ↦ rw below tt
      | inr enough ↦ elim (Bool-cases (i == j)) [
        | inl same ↦ rw (enough, same) (p, tt)
        | inr differs ↦
            rw (enough, differs)
              (others-Sees P r.actions (move-IsQuiet m.command input w.store m.pc m.calls))
      ]
    ]

seen_turn-Sees :
    (P : Input → Type 0) (j : ℕ) (t : Turn) (w : Wrapper)
    → Takes P t
    → All (Sees P) (seen_turn j t w)
seen_turn-Sees P j (command i input) w q = elim (Option-cases (machine i w.machines)) [
  | inl nobody ↦ rw nobody tt
  | inr (m, here) ↦ rw here (seen_move-Sees P j i input m w q)
]
seen_turn-Sees P j scheduler w q = tt
seen_turn-Sees P j main w q = tt
seen_turn-Sees P j (outside a) w q = (q, tt)

running_turn-Sees :
    (P : Input → Type 0) (j : ℕ) (t : Turn) (w : Wrapper)
    → Takes P t
    → All (Sees P) (if is_running w.phase then seen_turn j t w else [])
running_turn-Sees P j t w q = elim (Bool-cases (is_running w.phase)) [
  | inl up ↦ rw up (seen_turn-Sees P j t w q)
  | inr over ↦ rw over tt
]

-- If no turn requests a shutdown and the inputs of all moves meet the predicate, then a command sees
-- nothing else.
pub seen-Sees :
    (P : Input → Type 0) (j : ℕ) (turns : List Turn) (w : Wrapper)
    → All (Takes P) turns
    → All (Sees P) (seen j turns w)
unfolding seen
seen-Sees P j [] w q = tt
seen-Sees P j (t ∷ turns) w q =
    All-append (Sees P) (if is_running w.phase then seen_turn j t w else []) _
      (running_turn-Sees P j t w q.0) (seen-Sees P j turns (advance t w) q.1)
