-- ===== src/Wrapper/Completion.antt =====
-- When `main` returns (main.go).
use process_wrapper.Prelude.{
  ℕ, zero, suc, ◌≡◌, refl, true, List, [], ◌∷◌, ◌++◌, some, Str, arith, All, Option-cases, inl, inr,
  map, ap, ◌∙◌, sym,
}
use mathlib.Core.List.{append-nil}
use process_wrapper.State.{State}
use process_wrapper.Command.{Command}
use process_wrapper.Lifecycle.{Pc, finished, move, Moved}
use process_wrapper.Schedule.{schedule}
use process_wrapper.Wrapper.{
  completed, Machine, Wrapper, Turn, machine, set_machine, apply_move, move_machine, schedule_step,
  main_step, take_turn, advance, advance_all, started, command, scheduler, main, outside,
}
use process_wrapper.Wrapper.WaitGroup.{
  IsBalanced, IsLiveMachine, total_calls, wrapper-IsBalanced, HoldsUnits,
}

abbrev pub commands_of : List Machine → List Command
commands_of ms = map (λ (m : Machine). m.command) ms

-- The commands that were started, and those that are still to be.
abbrev all_commands : Wrapper → List Command
all_commands w = commands_of w.machines ++ w.pending

commands_of-set_machine :
    (i : ℕ) (m m' : Machine) (ms : List Machine)
    → machine i ms ≡ some m
    → m'.command ≡ m.command
    → commands_of (set_machine i m' ms) ≡ commands_of ms
commands_of-set_machine i m m' [] h e = refl
commands_of-set_machine zero m m' (n ∷ ms) h e = ground arith
commands_of-set_machine (suc i) m m' (n ∷ ms) h e =
    ap (λ cs. n.command ∷ cs) (commands_of-set_machine i m m' ms h e)

apply_move-all_commands :
    (i : ℕ) (m : Machine) (r : Moved) (w : Wrapper)
    → machine i w.machines ≡ some m
    → all_commands (apply_move i m r w) ≡ all_commands w
unfolding apply_move
apply_move-all_commands i m r w here =
    let same =
      commands_of-set_machine i m (record m { pc = r.pc; calls = r.calls }) w.machines here refl in
    ground (arith, same)

commands_of-last :
    (ms : List Machine) (m : Machine) (cs : List Command)
    → commands_of (ms ++ m ∷ []) ++ cs ≡ commands_of ms ++ (m.command ∷ cs)
commands_of-last [] m cs = refl
commands_of-last (n ∷ ms) m cs = ap (λ rest. n.command ∷ rest) (commands_of-last ms m cs)

schedule_step-all_commands :
    (cs : List Command) (w : Wrapper)
    → w.pending ≡ cs
    → all_commands (schedule_step cs w) ≡ all_commands w
unfolding schedule_step
schedule_step-all_commands (c ∷ cs) w e =
    commands_of-last w.machines (record { command = c; pc = Pc.acquire; calls = 1 }) cs
    ∙ ap (λ rest. commands_of w.machines ++ rest) (sym e)
schedule_step-all_commands [] w e = ground arith

take_turn-all_commands : (t : Turn) (w : Wrapper) → all_commands (take_turn t w) ≡ all_commands w
unfolding take_turn move_machine main_step
take_turn-all_commands (command i input) w = elim (Option-cases (machine i w.machines)) [
  | inl nobody ↦ rw nobody refl
  | inr (m, here) ↦
      rw here (apply_move-all_commands i m (move m.command input w.store m.pc m.calls) w here)
]
take_turn-all_commands scheduler w = schedule_step-all_commands w.pending w refl
take_turn-all_commands main w = ground arith
take_turn-all_commands (outside a) w = refl

advance_all-all_commands :
    (turns : List Turn) (w : Wrapper) → all_commands (advance_all turns w) ≡ all_commands w
unfolding advance_all advance
advance_all-all_commands [] w = refl
advance_all-all_commands (t ∷ turns) w =
    advance_all-all_commands turns (advance t w) ∙ ground (arith, take_turn-all_commands t w)

live-finished : (pc : Pc) (n : ℕ) → HoldsUnits pc n → n ≡ 0 → pc ≡ finished
live-finished finished n h e = refl
live-finished Pc.acquire n h e = absurd (omega arith)
live-finished _ n h e = absurd (omega arith)

all-finished :
    (ms : List Machine)
    → All IsLiveMachine ms
    → total_calls ms ≡ 0
    → All (λ (m : Machine). m.pc ≡ finished) ms
all-finished [] h e = tt
all-finished (m ∷ ms) h e =
    (live-finished m.pc m.calls h.0 (omega arith), all-finished ms h.1 (omega arith))

IsBalanced-completed :
    (w : Wrapper)
    → IsBalanced w
    → w.phase ≡ completed
    → (w.pending ≡ []) × (total_calls w.machines ≡ 0)
IsBalanced-completed w b over =
    let (waits, nothing) = b.done over in
    let ended : w.scheduled ≡ true = ground (arith, b.balance) in
    (b.ended ended, ground (arith, b.balance))

-- `main` returns only when all work is done: in every run of the wrapper in which it returns, all
-- commands of the configuration that are not skipped, replicas included, have been started, in
-- order, and the last call of `Run` of each has returned.
pub completed-finished :
    (s : State) (skip : List Str) (cs : List Command) (turns : List Turn)
    → (advance_all turns (started s skip cs)).phase ≡ completed
    → let ms = (advance_all turns (started s skip cs)).machines in
      (commands_of ms ≡ schedule skip cs) × All (λ (m : Machine). m.pc ≡ finished) ms
completed-finished s skip cs turns over =
    let w = advance_all turns (started s skip cs) in
    let b = wrapper-IsBalanced s skip cs turns in
    let (none_left, no_calls) = IsBalanced-completed w b over in
    let kept : all_commands w ≡ schedule skip cs =
      advance_all-all_commands turns (started s skip cs) ∙ (unfold started in refl) in
    (
      sym (append-nil (commands_of w.machines))
          ∙ ap (λ rest. commands_of w.machines ++ rest) (sym none_left)
          ∙ kept,
      all-finished w.machines b.live no_calls,
    )
