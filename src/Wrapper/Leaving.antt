-- ===== src/Wrapper/Leaving.antt =====
-- The shutdown phase of the wrapper: it is kept by every turn (main.go, and `Run` of
-- pkg/process/process.go).
use process_wrapper.Prelude.{
  ℕ, ◌+◌, ◌≡◌, ◌≢◌, refl, true, false, List, [], ◌∷◌, arith, All, ltb, Bool-cases, Option-cases,
  inl, inr,
}
use process_wrapper.Action.Invariant.{perform_all-shutdown}
use process_wrapper.Command.{Command}
use process_wrapper.Lifecycle.{Pc, Moved, move}
use process_wrapper.Lifecycle.Ending.{IsAlive, IsHelpful, own-IsAlive}
use process_wrapper.Wrapper.{
  stopped, Machine, Wrapper, Turn, machine, apply_move, move_machine, schedule_step, main_step,
  take_turn, advance, advance_all, command, scheduler, main, outside, is_running, is_fatal,
}
use process_wrapper.Wrapper.Machines.{All-set_machine, All-machine}

abbrev pub IsAliveMachine : Machine → Type 0
IsAliveMachine m = IsAlive m.pc

-- A command that waits for its lock gets it, and one that is being started can be started.
abbrev pub IsHelpfulTurn : Turn → Type 0
IsHelpfulTurn (command i input) = IsHelpful input
IsHelpfulTurn _ = Unit

-- The shutdown flag is set, `NewSchedule` has ended, and no command has failed to start.
pub record IsEnding (w : Wrapper) : Type 0 where
  pub down : w.store.shutdown ≡ true
  pub alive : All IsAliveMachine w.machines
  pub none_left : w.pending ≡ []
  pub over : w.scheduled ≡ true
  pub no_stop : w.phase ≢ stopped

IsAlive-is_fatal : (pc : Pc) → IsAlive pc → is_fatal pc ≡ false
IsAlive-is_fatal Pc.fatal h = absurd h
IsAlive-is_fatal Pc.acquire h = refl
IsAlive-is_fatal _ h = refl

apply_move-IsEnding :
    (i : ℕ) (m : Machine) (r : Moved) (w : Wrapper)
    → IsEnding w
    → IsAlive r.pc
    → IsEnding (apply_move i m r w)
unfolding apply_move
apply_move-IsEnding i m r w e x =
    let alive = IsAlive-is_fatal r.pc x in
    elim (Bool-cases (ltb (w.counter + r.calls) m.calls)) [
      | inl below ↦ rw below (record {
        down = e.down;
        alive = e.alive;
        none_left = e.none_left;
        over = e.over;
        no_stop = λ h. cc;
      })
      | inr enough ↦
          rw (enough, alive)
            (record {
              down = perform_all-shutdown r.actions w.store e.down;
              alive =
                  All-set_machine IsAliveMachine i (record m { pc = r.pc; calls = r.calls })
                    w.machines e.alive x;
              none_left = e.none_left;
              over = e.over;
              no_stop = e.no_stop;
            })
    ]

schedule_step-IsEnding :
    (cs : List Command) (w : Wrapper) → w.pending ≡ cs → IsEnding w → IsEnding (schedule_step cs w)
unfolding schedule_step
schedule_step-IsEnding (c ∷ cs) w same e = absurd (let nothing = e.none_left in ground arith)
schedule_step-IsEnding [] w same e = ground arith

pub take_turn-IsEnding :
    (t : Turn) (w : Wrapper) → IsHelpfulTurn t → IsEnding w → IsEnding (take_turn t w)
unfolding take_turn move_machine
take_turn-IsEnding (command i input) w g e = elim (Option-cases (machine i w.machines)) [
  | inl nobody ↦ rw nobody e
  | inr (m, here) ↦ rw here (
      apply_move-IsEnding i m (move m.command input w.store m.pc m.calls) w e (
        own-IsAlive m.command input w.store m.pc m.calls g
          (All-machine IsAliveMachine i m w.machines e.alive here)))
]
take_turn-IsEnding scheduler w g e = schedule_step-IsEnding w.pending w refl e
take_turn-IsEnding main w g e = unfold main_step in ground arith
take_turn-IsEnding (outside a) w g e = record {
  down = perform_all-shutdown (a ∷ []) w.store e.down;
  alive = e.alive;
  none_left = e.none_left;
  over = e.over;
  no_stop = e.no_stop;
}

pub advance-IsEnding :
    (t : Turn) (w : Wrapper) → IsHelpfulTurn t → IsEnding w → IsEnding (advance t w)
unfolding advance
advance-IsEnding t w g e = elim (Bool-cases (is_running w.phase)) [
  | inl up ↦ rw up (take_turn-IsEnding t w g e)
  | inr over ↦ rw over e
]

pub advance_all-IsEnding :
    (turns : List Turn) (w : Wrapper)
    → All IsHelpfulTurn turns
    → IsEnding w
    → IsEnding (advance_all turns w)
unfolding advance_all
advance_all-IsEnding [] w g e = e
advance_all-IsEnding (t ∷ turns) w g e =
    advance_all-IsEnding turns (advance t w) g.1 (advance-IsEnding t w g.0 e)
