-- ===== src/Wrapper/Alive.antt =====
-- A command that cannot start its process ends the whole program (`Run` of pkg/process/process.go).
use process_wrapper.Prelude.{
  ℕ, ◌+◌, ◌≡◌, true, false, List, [], ◌∷◌, arith, All, All-append, ltb, Bool-cases, Option-cases,
  inl, inr,
}
use process_wrapper.Command.{Command}
use process_wrapper.Lifecycle.{Pc, Moved, move}
use process_wrapper.Lifecycle.Ending.{IsAlive}
use process_wrapper.Wrapper.{
  Machine, Wrapper, Turn, machine, apply_move, move_machine, schedule_step, main_step, take_turn,
  advance, advance_all, command, scheduler, main, outside, is_running, is_fatal,
}
use process_wrapper.Wrapper.Leaving.{IsAliveMachine}
use process_wrapper.Wrapper.Machines.{All-set_machine}

-- In a program that runs no command has failed to start.
abbrev pub IsAliveRun : Wrapper → Type 0
IsAliveRun w = is_running w.phase ≡ true → All IsAliveMachine w.machines

is_fatal-IsAlive : (pc : Pc) → is_fatal pc ≡ false → IsAlive pc
is_fatal-IsAlive Pc.fatal h = absurd cc
is_fatal-IsAlive Pc.acquire h = tt
is_fatal-IsAlive _ h = tt

apply_move-IsAliveRun :
    (i : ℕ) (m : Machine) (r : Moved) (w : Wrapper)
    → All IsAliveMachine w.machines
    → IsAliveRun (apply_move i m r w)
unfolding apply_move
apply_move-IsAliveRun i m r w a = elim (Bool-cases (ltb (w.counter + r.calls) m.calls)) [
  | inl below ↦ rw below (λ up. absurd cc)
  | inr enough ↦ elim (Bool-cases (is_fatal r.pc)) [
    | inl dies ↦ rw (enough, dies) (λ up. absurd cc)
    | inr lives ↦
        rw (enough, lives)
          (λ up.
            All-set_machine IsAliveMachine i (record m { pc = r.pc; calls = r.calls }) w.machines a
              (is_fatal-IsAlive r.pc lives))
  ]
]

schedule_step-IsAliveRun :
    (cs : List Command) (w : Wrapper)
    → All IsAliveMachine w.machines
    → IsAliveRun (schedule_step cs w)
unfolding schedule_step
schedule_step-IsAliveRun (c ∷ cs) w a up = All-append IsAliveMachine w.machines _ a (tt, tt)
schedule_step-IsAliveRun [] w a up = ground arith

take_turn-IsAliveRun :
    (t : Turn) (w : Wrapper) → All IsAliveMachine w.machines → IsAliveRun (take_turn t w)
unfolding take_turn move_machine main_step
take_turn-IsAliveRun (command i input) w a = elim (Option-cases (machine i w.machines)) [
  | inl nobody ↦ rw nobody (λ up. a)
  | inr (m, here) ↦
      rw here (apply_move-IsAliveRun i m (move m.command input w.store m.pc m.calls) w a)
]
take_turn-IsAliveRun scheduler w a = schedule_step-IsAliveRun w.pending w a
take_turn-IsAliveRun main w a = λ up. ground arith
take_turn-IsAliveRun (outside b) w a = λ up. a

advance-IsAliveRun : (t : Turn) (w : Wrapper) → IsAliveRun w → IsAliveRun (advance t w)
unfolding advance
advance-IsAliveRun t w a = elim (Bool-cases (is_running w.phase)) [
  | inl up ↦ rw up (take_turn-IsAliveRun t w (a up))
  | inr over ↦ rw over (λ up. absurd cc)
]

pub advance_all-IsAliveRun :
    (turns : List Turn) (w : Wrapper) → IsAliveRun w → IsAliveRun (advance_all turns w)
unfolding advance_all
advance_all-IsAliveRun [] w a = a
advance_all-IsAliveRun (t ∷ turns) w a =
    advance_all-IsAliveRun turns (advance t w) (advance-IsAliveRun t w a)
