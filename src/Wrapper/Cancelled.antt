-- ===== src/Wrapper/Cancelled.antt =====
-- The wrapper when the context of its commands is done, but no shutdown is requested (main.go, and `Run`
-- of pkg/process/process.go).
use process_wrapper.Prelude.{
  ℕ, ◌≤◌, ◌≡◌, ◌≢◌, ◌∙◌, refl, ap, true, false, List, [], ◌∷◌, ◌++◌, some, Str, arith, All,
  Bool-cases, inl, inr,
}
use process_wrapper.State.{State}
use process_wrapper.Command.{Command}
use process_wrapper.Schedule.{schedule}
use process_wrapper.Lifecycle.{Tick, own, other, System, wait, fatal, run}
use process_wrapper.Lifecycle.Cancelled.{IsCancelled, IsCancelledTick, run-cancelled}
use process_wrapper.Lifecycle.Restart.{IsQuiet}
use process_wrapper.Wrapper.{
  running, stopped, completed, panicked, Phase, Machine, Wrapper, Turn, machine, advance,
  advance_all, started, is_running, outside, command, scheduler, main,
}
use process_wrapper.Wrapper.Alive.{IsAliveRun, advance_all-IsAliveRun}
use process_wrapper.Wrapper.Leaving.{IsAliveMachine}
use process_wrapper.Wrapper.Machines.{All-machine}
use process_wrapper.Wrapper.Moves.{moves_of, moves_of-seen}
use process_wrapper.Wrapper.Panic.{advance_all-IsSafe}
use process_wrapper.Wrapper.Requested.{advance_all-IsUnrequested, completed-requested}
use process_wrapper.Wrapper.Restarting.{quiet-turns}
use process_wrapper.Wrapper.Seen.{Sees, Takes, seen-Sees}
use process_wrapper.Wrapper.Signalled.{outside_actions}
use process_wrapper.Wrapper.Views.{view, seen, view-machine, view-advance_all}
use process_wrapper.Wrapper.WaitGroup.{wrapper-IsBalanced}

-- In its moves a command finds its context done, and does not start.
abbrev pub IsCancelledTurn : Turn → Type 0
IsCancelledTurn t = Takes IsCancelled t

Sees-IsCancelledTick :
    (ticks : List Tick) → All (Sees IsCancelled) ticks → All IsCancelledTick ticks
Sees-IsCancelledTick [] q = tt
Sees-IsCancelledTick (own i ∷ ticks) q = (q.0, Sees-IsCancelledTick ticks q.1)
Sees-IsCancelledTick (other a ∷ ticks) q = (q.0, Sees-IsCancelledTick ticks q.1)

advance_all-append :
    (xs ys : List Turn) (w : Wrapper) → advance_all (xs ++ ys) w ≡ advance_all ys (advance_all xs w)
unfolding advance_all
advance_all-append [] ys w = refl
advance_all-append (x ∷ xs) ys w = advance_all-append xs ys (advance x w)

outside_actions-IsQuiet :
    (xs ys : List Turn)
    → All IsQuiet (outside_actions xs)
    → All IsCancelledTurn ys
    → All IsQuiet (outside_actions (xs ++ ys))
outside_actions-IsQuiet [] [] p q = tt
outside_actions-IsQuiet [] (outside a ∷ ys) p q = (q.0, outside_actions-IsQuiet [] ys tt q.1)
outside_actions-IsQuiet [] (command i input ∷ ys) p q = outside_actions-IsQuiet [] ys tt q.1
outside_actions-IsQuiet [] (scheduler ∷ ys) p q = outside_actions-IsQuiet [] ys tt q.1
outside_actions-IsQuiet [] (main ∷ ys) p q = outside_actions-IsQuiet [] ys tt q.1
outside_actions-IsQuiet (outside a ∷ xs) ys p q = (p.0, outside_actions-IsQuiet xs ys p.1 q)
outside_actions-IsQuiet (command i input ∷ xs) ys p q = outside_actions-IsQuiet xs ys p q
outside_actions-IsQuiet (scheduler ∷ xs) ys p q = outside_actions-IsQuiet xs ys p q
outside_actions-IsQuiet (main ∷ xs) ys p q = outside_actions-IsQuiet xs ys p q

-- A command that could not be started has ended the program.
fatal-is_running :
    (j : ℕ) (w : Wrapper) (c : Command) (y : System)
    → IsAliveRun w
    → view j w ≡ some (c, y)
    → y.pc ≡ fatal
    → is_running w.phase ≡ false
fatal-is_running j w c y alive here dead = elim (Bool-cases (is_running w.phase)) [
  | inl up ↦
      let (n, there, same) = view-machine j w c y here in
      let place : n.pc ≡ fatal = ap (λ (p : Command × System). p.1.pc) same ∙ dead in
      absurd (rw place at (All-machine IsAliveMachine j n w.machines (alive up) there))
  | inr over ↦ over
]

-- When the command has made ten moves, the program does not run any more.
cancelled-is_running :
    (w : Wrapper) (last : List Turn) (j : ℕ) (m : Machine) (r : ℕ)
    → w.store.shutdown ≡ false
    → IsAliveRun w
    → machine j w.machines ≡ some m
    → m.pc ≡ wait r
    → All IsCancelledTurn last
    → 10 ≤ moves_of j last
    → is_running (advance_all last w).phase ≡ false
cancelled-is_running w last j m r up alive here at_wait done enough =
    elim (Bool-cases (is_running (advance_all last w).phase)) [
      | inl runs ↦
          let y : System = record { store = w.store; pc = m.pc; calls = m.calls } in
          let ticks = seen j last w in
          let cancelled = Sees-IsCancelledTick ticks (seen-Sees IsCancelled j last w done) in
          let moves = moves_of-seen j last w m here runs in
          let dead : (run m.command ticks y).pc ≡ fatal =
            run-cancelled m.command ticks y cancelled up (rw at_wait (omega arith))
              (rw at_wait (omega arith)) in
          fatal-is_running j (advance_all last w) m.command (run m.command ticks y)
            (advance_all-IsAliveRun last w alive)
            (view-advance_all j last w m.command y (rw here refl)) dead
      | inr over ↦ over
    ]

not_running : (p : Phase) → is_running p ≡ false → p ≢ completed → p ≢ panicked → p ≡ stopped
not_running running h c x = absurd cc
not_running completed h c x = absurd (c refl)
not_running stopped h c x = refl
not_running panicked h c x = absurd (x refl)

-- A cancelled context is no shutdown. Take a wrapper that runs, with the main goroutine waiting, in which
-- nobody has requested a shutdown, and a command whose process runs. If from now on the commands find
-- their context done, so that none can be started, and nobody requests a shutdown, then under every
-- continuation that has ten moves for the command, the end of the process being the first, the program
-- ends by `log.Fatalf`.
pub cancelled_stops :
    (s : State) (skip : List Str) (cs : List Command) (turns last : List Turn) (j : ℕ) (m : Machine)
    (r : ℕ)
    → s.shutdown ≡ false
    → schedule skip cs ≢ []
    → All IsQuiet (outside_actions turns)
    → (advance_all turns (started s skip cs)).phase ≡ running
    → (advance_all turns (started s skip cs)).waiting ≡ true
    → machine j (advance_all turns (started s skip cs)).machines ≡ some m
    → m.pc ≡ wait r
    → All IsCancelledTurn last
    → 10 ≤ moves_of j last
    → (advance_all last (advance_all turns (started s skip cs))).phase ≡ stopped
cancelled_stops s skip cs turns last j m r up some_command quiet runs waits here at_wait done
      enough =
    let w = advance_all turns (started s skip cs) in
    let unrequested =
      advance_all-IsUnrequested turns (started s skip cs) (quiet-turns turns quiet)
        (unfold started in (up, tt)) in
    let alive = advance_all-IsAliveRun turns (started s skip cs) (λ e. unfold started in tt) in
    let over = cancelled-is_running w last j m r unrequested.0 alive here at_wait done enough in
    let joined = advance_all-append turns last (started s skip cs) in
    not_running (advance_all last w).phase over
      (λ e.
        completed-requested s skip cs (turns ++ last) up some_command (rw joined e)
          (outside_actions-IsQuiet turns last quiet done))
      (advance_all-IsSafe w last (wrapper-IsBalanced s skip cs turns) (waits, λ e. cc)).1
