-- ===== src/Wrapper/WaitGroup.antt =====
-- What the counter of the wait group counts (main.go, and `NewSchedule` and `Run` of
-- pkg/process/process.go).
use process_wrapper.Prelude.{
  Str, ℕ, zero, suc, ◌+◌, ◌≤◌, ◌≡◌, refl, Bool, true, false, List, [], ◌∷◌, ◌++◌, some, arith, All,
  All-append, ltb, Bool-cases, Option-cases, inl, inr,
}
use process_wrapper.State.{State}
use process_wrapper.Command.{Command}
use process_wrapper.Lifecycle.{Pc, finished, move, Input, Moved}
use process_wrapper.Wrapper.{
  is_running, Phase, running, completed, stopped, panicked, Machine, Wrapper, Turn, machine,
  set_machine, apply_move, move_machine, schedule_step, main_step, take_turn, advance, advance_all,
  started, command, scheduler, main, outside,
}
use process_wrapper.Wrapper.Machines.{All-set_machine, All-machine}

-- The calls of `Run` that have not returned.
abbrev pub total_calls : List Machine → ℕ
total_calls [] = 0
total_calls (m ∷ ms) = m.calls + total_calls ms

abbrev pub unit_of : Bool → ℕ
unit_of true = 1
unit_of false = 0

-- A machine holds a unit until its calls have all returned, and none after.
abbrev pub HoldsUnits : Pc → ℕ → Type 0
HoldsUnits finished n = n ≡ 0
HoldsUnits pc n = 1 ≤ n

abbrev pub IsLiveMachine : Machine → Type 0
IsLiveMachine m = HoldsUnits m.pc m.calls

-- The counter is one unit for each pending call, and one for the main goroutine, less one for
-- `NewSchedule` when it has ended.
pub record IsBalanced (w : Wrapper) : Type 0 where
  pub balance : w.counter + unit_of w.scheduled ≡ unit_of w.waiting + total_calls w.machines
  pub live : All IsLiveMachine w.machines
  pub ended : w.scheduled ≡ true → w.pending ≡ []
  pub done : w.phase ≡ completed → (w.waiting ≡ true) × (w.counter ≡ 0)

total_calls-append :
    (ms ns : List Machine) → total_calls (ms ++ ns) ≡ total_calls ms + total_calls ns
total_calls-append [] ns = omega arith
total_calls-append (m ∷ ms) ns = omega (arith, total_calls-append ms ns)

total_calls-set_machine :
    (i : ℕ) (m m' : Machine) (ms : List Machine)
    → machine i ms ≡ some m
    → total_calls (set_machine i m' ms) + m.calls ≡ total_calls ms + m'.calls
total_calls-set_machine i m m' [] h = cc
total_calls-set_machine zero m m' (n ∷ ms) h = ground arith
total_calls-set_machine (suc i) m m' (n ∷ ms) h = omega (arith, total_calls-set_machine i m m' ms h)

move-HoldsUnits :
    (c : Command) (input : Input) (s : State) (pc : Pc) (n : ℕ)
    → HoldsUnits pc n
    → let r = move c input s pc n in HoldsUnits r.pc r.calls
unfolding move
move-HoldsUnits c input s Pc.acquire n h = ground arith
move-HoldsUnits c input s _ n h = ground arith

apply_move-IsBalanced :
    (i : ℕ) (m : Machine) (r : Moved) (w : Wrapper)
    → w.phase ≡ running
    → IsBalanced w
    → let m' = record m { pc = r.pc; calls = r.calls } in
      total_calls (set_machine i m' w.machines) + m.calls ≡ total_calls w.machines + r.calls
      → All IsLiveMachine (set_machine i m' w.machines)
      → IsBalanced (apply_move i m r w)
unfolding apply_move
apply_move-IsBalanced i m r w up b sum live' =
    elim (Bool-cases (ltb (w.counter + r.calls) m.calls)) [
      | inl below ↦
          rw below (record { balance = b.balance; live = b.live; ended = b.ended; done = λ e. cc })
      | inr enough ↦ rw enough (record {
        balance = ground (arith, b.balance, sum);
        live = live';
        ended = b.ended;
        done = λ e. ground arith;
      })
    ]

command-IsBalanced :
    (i : ℕ) (input : Input) (w : Wrapper)
    → w.phase ≡ running
    → IsBalanced w
    → IsBalanced (move_machine i input (machine i w.machines) w)
unfolding move_machine
command-IsBalanced i input w up b = elim (Option-cases (machine i w.machines)) [
  | inl nobody ↦ rw nobody b
  | inr (m, here) ↦
      let r = move m.command input w.store m.pc m.calls in
      let m' = record m { pc = r.pc; calls = r.calls } in
      let pending = All-machine IsLiveMachine i m w.machines b.live here in
      let sum = total_calls-set_machine i m m' w.machines here in
      let live' =
        All-set_machine IsLiveMachine i m' w.machines b.live
          (move-HoldsUnits m.command input w.store m.pc m.calls pending) in
      rw here (apply_move-IsBalanced i m r w up b sum live')
]

schedule_step-IsBalanced :
    (cs : List Command) (w : Wrapper)
    → w.phase ≡ running
    → w.pending ≡ cs
    → IsBalanced w
    → IsBalanced (schedule_step cs w)
unfolding schedule_step
schedule_step-IsBalanced (c ∷ cs) w up e b = record {
  balance = omega (
    arith,
    b.balance,
    total_calls-append w.machines (record { command = c; pc = Pc.acquire; calls = 1 } ∷ []),
  );
  live = All-append IsLiveMachine w.machines _ b.live (omega arith, tt);
  ended = λ h. let none_left = b.ended h in cc;
  done = λ h. cc;
}
schedule_step-IsBalanced [] w up e b = ground arith

main_step-IsBalanced : (w : Wrapper) → w.phase ≡ running → IsBalanced w → IsBalanced (main_step w)
unfolding main_step
main_step-IsBalanced w up b = ground arith

take_turn-IsBalanced :
    (t : Turn) (w : Wrapper) → w.phase ≡ running → IsBalanced w → IsBalanced (take_turn t w)
unfolding take_turn
take_turn-IsBalanced (command i input) w up b = command-IsBalanced i input w up b
take_turn-IsBalanced scheduler w up b = schedule_step-IsBalanced w.pending w up refl b
take_turn-IsBalanced main w up b = main_step-IsBalanced w up b
take_turn-IsBalanced (outside a) w up b = record {
  balance = b.balance;
  live = b.live;
  ended = b.ended;
  done = b.done;
}

pub is_running-running : (p : Phase) → is_running p ≡ true → p ≡ running
is_running-running running h = refl
is_running-running completed h = cc
is_running-running stopped h = cc
is_running-running panicked h = cc

pub advance-IsBalanced : (t : Turn) (w : Wrapper) → IsBalanced w → IsBalanced (advance t w)
unfolding advance
advance-IsBalanced t w b = elim (Bool-cases (is_running w.phase)) [
  | inl up ↦ rw up (take_turn-IsBalanced t w (is_running-running w.phase up) b)
  | inr over ↦ rw over b
]

pub advance_all-IsBalanced :
    (turns : List Turn) (w : Wrapper) → IsBalanced w → IsBalanced (advance_all turns w)
unfolding advance_all
advance_all-IsBalanced [] w b = b
advance_all-IsBalanced (t ∷ turns) w b =
    advance_all-IsBalanced turns (advance t w) (advance-IsBalanced t w b)

started-IsBalanced :
    (s : State) (skip : List Str) (cs : List Command) → IsBalanced (started s skip cs)
unfolding started
started-IsBalanced s skip cs = record {
  balance = omega arith;
  live = tt;
  ended = λ h. cc;
  done = λ h. cc;
}

-- In every run of the wrapper the counter of the wait group is one unit for each call of `Run` that
-- has not returned, and one for the main goroutine when it waits, less the one that `NewSchedule`
-- gives back at its end; and only a machine that is finished holds no unit.
pub wrapper-IsBalanced :
    (s : State) (skip : List Str) (cs : List Command) (turns : List Turn)
    → IsBalanced (advance_all turns (started s skip cs))
wrapper-IsBalanced s skip cs turns =
    advance_all-IsBalanced turns (started s skip cs) (started-IsBalanced s skip cs)
