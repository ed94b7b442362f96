-- ===== src/Wrapper/Views.antt =====
-- The wrapper as one command sees it: its own machine, interleaved with the actions of all others.
use process_wrapper.Prelude.{
  ℕ, zero, suc, ◌≡◌, ◌≢◌, refl, List, [], ◌∷◌, ◌++◌, Option, none, some, arith, ltb, ◌==◌, ==_iff,
  Bool-cases, Option-cases, inl, inr, map, ap, ◌∙◌, sym, if◌then◌else◌, ◌+◌,
}
use process_wrapper.State.{State}
use process_wrapper.Action.{Action, perform_all, perform}
use process_wrapper.Command.{Command}
use process_wrapper.Lifecycle.{Pc, Input, System, Tick, own, other, move, tick, run}
use process_wrapper.Wrapper.{
  Machine, Wrapper, Turn, machine, set_machine, apply_move, move_machine, schedule_step, main_step,
  take_turn, advance, advance_all, command, scheduler, main, outside, is_running,
}

-- The machine of command number `j`, beside the shared state.
abbrev pub view_of : State → Machine → Command × System
view_of s m = (m.command, record { store = s; pc = m.pc; calls = m.calls })

abbrev lift_view : State → Option Machine → Option (Command × System)
lift_view s none = none
lift_view s (some m) = some (view_of s m)

abbrev pub view : ℕ → Wrapper → Option (Command × System)
view j w = lift_view w.store (machine j w.machines)

abbrev pub others : List Action → List Tick
others actions = map other actions

-- What command number `j` notices of a move of number `i`.
abbrev pub seen_move : ℕ → ℕ → Input → Machine → Wrapper → List Tick
seen_move j i input m w =
    let r = move m.command input w.store m.pc m.calls in
    if ltb (w.counter + r.calls) m.calls
    then []
    else if i == j
    then own input ∷ []
    else others r.actions

abbrev seen_command : ℕ → ℕ → Input → Option Machine → Wrapper → List Tick
seen_command j i input none w = []
seen_command j i input (some m) w = seen_move j i input m w

-- What it notices of a turn.
abbrev pub seen_turn : ℕ → Turn → Wrapper → List Tick
seen_turn j (command i input) w = seen_command j i input (machine i w.machines) w
seen_turn j scheduler w = []
seen_turn j main w = []
seen_turn j (outside a) w = other a ∷ []

unfoldable pub seen : ℕ → List Turn → Wrapper → List Tick
unfolding advance
seen j [] w = []
seen j (t ∷ turns) w =
    (if is_running w.phase then seen_turn j t w else []) ++ seen j turns (advance t w)

run-append :
    (c : Command) (xs ys : List Tick) (y : System) → run c (xs ++ ys) y ≡ run c ys (run c xs y)
unfolding run
run-append c [] ys y = refl
run-append c (x ∷ xs) ys y = run-append c xs ys (tick c x y)

run-others :
    (c : Command) (actions : List Action) (y : System)
    → run c (others actions) y ≡ record y { store = perform_all actions y.store }
unfolding run tick perform_all
run-others c [] y = refl
run-others c (a ∷ actions) y = run-others c actions (record y { store = perform a y.store })

machine-set_machine_self :
    (i : ℕ) (m m' : Machine) (ms : List Machine)
    → machine i ms ≡ some m
    → machine i (set_machine i m' ms) ≡ some m'
machine-set_machine_self i m m' [] h = cc
machine-set_machine_self zero m m' (n ∷ ms) h = refl
machine-set_machine_self (suc i) m m' (n ∷ ms) h = machine-set_machine_self i m m' ms h

machine-set_machine_other :
    (i j : ℕ) (m' : Machine) (ms : List Machine)
    → i ≢ j
    → machine j (set_machine i m' ms) ≡ machine j ms
machine-set_machine_other i j m' [] h = refl
machine-set_machine_other zero zero m' (n ∷ ms) h = absurd (h refl)
machine-set_machine_other zero (suc j) m' (n ∷ ms) h = refl
machine-set_machine_other (suc i) zero m' (n ∷ ms) h = refl
machine-set_machine_other (suc i) (suc j) m' (n ∷ ms) h =
    machine-set_machine_other i j m' ms (λ e. h (ap suc e))

machine-append :
    (j : ℕ) (m : Machine) (ms ns : List Machine)
    → machine j ms ≡ some m
    → machine j (ms ++ ns) ≡ some m
machine-append j m [] ns h = cc
machine-append zero m (n ∷ ms) ns h = h
machine-append (suc j) m (n ∷ ms) ns h = machine-append j m ms ns h

view-move :
    (i j : ℕ) (input : Input) (m n : Machine) (w : Wrapper)
    → machine i w.machines ≡ some m
    → machine j w.machines ≡ some n
    → let (c, y) = view_of w.store n in
      view j (apply_move i m (move m.command input w.store m.pc m.calls) w)
      ≡ some (c, run c (seen_move j i input m w) y)
unfolding apply_move run tick
view-move i j input m n w hi hj =
    let r = move m.command input w.store m.pc m.calls in
    elim (Bool-cases (ltb (w.counter + r.calls) m.calls)) [
      | inl below ↦ rw (below, hj) refl
      | inr enough ↦ elim (Bool-cases (i == j)) [
        | inl same ↦
            let e : i ≡ j = (==_iff i j).0 same in
            let m' = record m { pc = r.pc; calls = r.calls } in
            let moved : machine j (set_machine i m' w.machines) ≡ some m' =
              rw (← e) (machine-set_machine_self i m m' w.machines hi) in
            let found : machine j w.machines ≡ some m = rw (← e) hi in
            let one : m ≡ n = cc in rw (enough, same, moved, ← one) refl
        | inr differs ↦
            let ne : i ≢ j = λ e. ground (arith, ==_iff i j) in
            let m' = record m { pc = r.pc; calls = r.calls } in
            rw
              (
                enough,
                differs,
                machine-set_machine_other i j m' w.machines ne,
                hj,
                run-others n.command r.actions
                    (record { store = w.store; pc = n.pc; calls = n.calls }),
              )
              refl
      ]
    ]

view-schedule_step :
    (j : ℕ) (n : Machine) (cs : List Command) (w : Wrapper)
    → machine j w.machines ≡ some n
    → view j (schedule_step cs w) ≡ some (view_of w.store n)
unfolding schedule_step
view-schedule_step j n (c ∷ cs) w h =
    rw (machine-append j n w.machines (record { command = c; pc = Pc.acquire; calls = 1 } ∷ []) h)
      refl
view-schedule_step j n [] w h = ground arith

view-take_turn :
    (j : ℕ) (n : Machine) (t : Turn) (w : Wrapper)
    → machine j w.machines ≡ some n
    → let (c, y) = view_of w.store n in view j (take_turn t w) ≡ some (c, run c (seen_turn j t w) y)
unfolding take_turn move_machine main_step run tick
view-take_turn j n (command i input) w h = elim (Option-cases (machine i w.machines)) [
  | inl nobody ↦ rw (nobody, h) refl
  | inr (m, here) ↦ rw here (view-move i j input m n w here h)
]
view-take_turn j n scheduler w h = view-schedule_step j n w.pending w h
view-take_turn j n main w h = ground arith
view-take_turn j n (outside a) w h = rw h refl

view-advance :
    (j : ℕ) (n : Machine) (t : Turn) (w : Wrapper)
    → machine j w.machines ≡ some n
    → let (c, y) = view_of w.store n in
      view j (advance t w) ≡ some (c, run c (if is_running w.phase then seen_turn j t w else []) y)
unfolding advance run
view-advance j n t w h = elim (Bool-cases (is_running w.phase)) [
  | inl up ↦ rw up (view-take_turn j n t w h)
  | inr over ↦ rw (over, h) refl
]

pub view-machine :
    (j : ℕ) (w : Wrapper) (c : Command) (y : System)
    → view j w ≡ some (c, y)
    → (n : Machine) × (machine j w.machines ≡ some n) × (view_of w.store n ≡ (c, y))
view-machine j w c y h = elim (Option-cases (machine j w.machines)) [
  | inl nobody ↦ absurd (ground arith)
  | inr (n, here) ↦ (n, here, ground arith)
]

-- The machine of one command is what every command of the wrapper runs: after any turns of the whole
-- wrapper, the place, the pending calls and the shared state of command number `j` are those that
-- its machine alone reaches, over the ticks that it sees of these turns.
pub view-advance_all :
    (j : ℕ) (turns : List Turn) (w : Wrapper) (c : Command) (y : System)
    → view j w ≡ some (c, y)
    → view j (advance_all turns w) ≡ some (c, run c (seen j turns w) y)
unfolding advance_all seen run
view-advance_all j [] w c y h = h
view-advance_all j (t ∷ turns) w c y h =
    let ticks = if is_running w.phase then seen_turn j t w else [] in
    let (n, here, same) = view-machine j w c y h in
    let one : view j (advance t w) ≡ some (c, run c ticks y) =
      rw (← ap (λ (p : Command × System). p.0) same, ← ap (λ (p : Command × System). p.1) same)
        (view-advance j n t w here) in
    view-advance_all j turns (advance t w) c (run c ticks y) one
    ∙ ap (λ y'. some (c, y')) (sym (run-append c ticks (seen j turns (advance t w)) y))
