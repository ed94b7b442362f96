-- ===== src/Wrapper/Moves.antt =====
-- How many moves a command makes in the turns of the wrapper (main.go).
use process_wrapper.Prelude.{
  ℕ, ◌+◌, ◌≤◌, ◌≡◌, refl, true, List, [], ◌∷◌, ◌++◌, some, arith, ltb, ◌==◌, ==_iff, Bool-cases,
  inl, inr, if◌then◌else◌,
}
use process_wrapper.Lifecycle.{Input, Tick, own, other, System, move, run}
use process_wrapper.Lifecycle.Shutdown.{own_ticks}
use process_wrapper.Wrapper.{
  Machine, Wrapper, Turn, machine, apply_move, move_machine, take_turn, advance, advance_all,
  command, scheduler, main, outside, is_running,
}
use process_wrapper.Wrapper.Flagged.{advance_all-is_running}
use process_wrapper.Wrapper.Views.{seen, seen_turn, seen_move, view-machine, view-advance_all}

-- The moves that the turns have for command number `j`.
abbrev pub moves_of : ℕ → List Turn → ℕ
moves_of j [] = 0
moves_of j (command i input ∷ turns) = (if i == j then 1 else 0) + moves_of j turns
moves_of j (_ ∷ turns) = moves_of j turns

own_ticks-append : (xs ys : List Tick) → own_ticks (xs ++ ys) ≡ own_ticks xs + own_ticks ys
own_ticks-append [] ys = omega arith
own_ticks-append (own i ∷ xs) ys = omega (arith, own_ticks-append xs ys)
own_ticks-append (other a ∷ xs) ys = own_ticks-append xs ys

own_ticks-seen_move :
    (j : ℕ) (input : Input) (m : Machine) (w : Wrapper)
    → is_running (apply_move j m (move m.command input w.store m.pc m.calls) w).phase ≡ true
    → own_ticks (seen_move j j input m w) ≡ 1
unfolding apply_move
own_ticks-seen_move j input m w up =
    let r = move m.command input w.store m.pc m.calls in
    elim (Bool-cases (ltb (w.counter + r.calls) m.calls)) [
      | inl below ↦ absurd (let ended = rw below at up in cc)
      | inr enough ↦ let same : (j == j) ≡ true = (==_iff j j).1 refl in rw (enough, same) refl
    ]

moves_of-seen_turn :
    (j : ℕ) (t : Turn) (w : Wrapper) (m : Machine)
    → machine j w.machines ≡ some m
    → is_running (take_turn t w).phase ≡ true
    → moves_of j (t ∷ []) ≤ own_ticks (seen_turn j t w)
unfolding take_turn move_machine
moves_of-seen_turn j (command i input) w m here up = elim (Bool-cases (i == j)) [
  | inl same ↦
      let e : i ≡ j = (==_iff i j).0 same in
      let one = own_ticks-seen_move j input m w (rw (e, here) at up) in
      rw (same, e, here) (omega (arith, one))
  | inr differs ↦ rw differs (omega arith)
]
moves_of-seen_turn j scheduler w m here up = omega arith
moves_of-seen_turn j main w m here up = omega arith
moves_of-seen_turn j (outside a) w m here up = omega arith

moves_of-first :
    (j : ℕ) (t : Turn) (turns : List Turn)
    → moves_of j (t ∷ turns) ≡ moves_of j (t ∷ []) + moves_of j turns
moves_of-first j (command i input) turns = omega arith
moves_of-first j scheduler turns = omega arith
moves_of-first j main turns = omega arith
moves_of-first j (outside a) turns = omega arith

-- As long as the program runs, a command makes all moves that the turns have for it.
pub moves_of-seen :
    (j : ℕ) (turns : List Turn) (w : Wrapper) (m : Machine)
    → machine j w.machines ≡ some m
    → is_running (advance_all turns w).phase ≡ true
    → moves_of j turns ≤ own_ticks (seen j turns w)
unfolding seen advance_all advance
moves_of-seen j [] w m here up = omega arith
moves_of-seen j (t ∷ turns) w m here up =
    let y : System = record { store = w.store; pc = m.pc; calls = m.calls } in
    let before : is_running w.phase ≡ true = advance_all-is_running (t ∷ turns) w up in
    let (n, there, same) =
      view-machine j (advance t w) m.command (run m.command (seen j (t ∷ []) w) y)
        (view-advance_all j (t ∷ []) w m.command y (rw here refl)) in
    let rest = moves_of-seen j turns (advance t w) n there up in
    let after : is_running (advance t w).phase ≡ true =
      advance_all-is_running turns (advance t w) up in
    let ticks = if is_running w.phase then seen_turn j t w else [] in
    let turn : moves_of j (t ∷ []) ≤ own_ticks ticks =
      rw before (moves_of-seen_turn j t w m here (rw before at after)) in
    omega (
      arith,
      moves_of-first j t turns,
      own_ticks-append ticks (seen j turns (advance t w)),
      turn,
      rest,
    )
