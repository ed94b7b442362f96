-- ===== src/Wrapper/Requested.antt =====
-- The wrapper does not return of itself (main.go, and `Run` of pkg/process/process.go).
use process_wrapper.Pods.{PodWorld, new_pod_status}
use process_wrapper.Pods.Quiet.{new_pod_status-IsQuiet}
use process_wrapper.State.{CancelFunc}
use process_wrapper.Signals.Termination.{Interleaves}
use process_wrapper.Wrapper.Recovery.{All-Interleaves}
use process_wrapper.Prelude.{
  ℕ, ◌+◌, ◌≡◌, ◌≢◌, refl, false, List, [], ◌∷◌, Str, arith, All, All-append, ltb, Bool-cases,
  Option-cases, inl, inr, sym, ◌∙◌,
}
use process_wrapper.State.{State}
use process_wrapper.Action.{Action}
use process_wrapper.Command.{Command}
use process_wrapper.Lifecycle.{finished, move, Moved}
use process_wrapper.Lifecycle.Restart.{
  IsQuiet, IsLeaving, own-IsQuiet, perform-IsQuiet, perform_all-IsQuiet,
}
use process_wrapper.Schedule.{schedule}
use process_wrapper.Wrapper.{
  completed, Machine, Wrapper, Turn, machine, apply_move, move_machine, schedule_step, main_step,
  take_turn, advance, advance_all, started, command, scheduler, main, outside, is_running,
}
use process_wrapper.Wrapper.Completion.{commands_of, completed-finished}
use process_wrapper.Wrapper.Machines.{All-set_machine, All-machine}
use process_wrapper.Wrapper.Restarting.{IsQuietTurn, quiet-turns}
use process_wrapper.Wrapper.Signalled.{outside_actions}

abbrev pub Stays : Machine → Type 0
Stays m = ¬ IsLeaving m.pc

-- No shutdown is requested, and no call of `Run` is about to return.
abbrev pub IsUnrequested : Wrapper → Type 0
IsUnrequested w = (w.store.shutdown ≡ false) × All Stays w.machines

apply_move-IsUnrequested :
    (i : ℕ) (m : Machine) (r : Moved) (w : Wrapper)
    → IsUnrequested w
    → All IsQuiet r.actions
    → ¬ IsLeaving r.pc
    → IsUnrequested (apply_move i m r w)
unfolding apply_move
apply_move-IsUnrequested i m r w (up, stay) q s =
    elim (Bool-cases (ltb (w.counter + r.calls) m.calls)) [
      | inl below ↦ rw below (up, stay)
      | inr enough ↦ rw enough (
        perform_all-IsQuiet r.actions w.store q up,
        All-set_machine Stays i (record m { pc = r.pc; calls = r.calls }) w.machines stay s,
      )
    ]

schedule_step-IsUnrequested :
    (cs : List Command) (w : Wrapper) → IsUnrequested w → IsUnrequested (schedule_step cs w)
unfolding schedule_step
schedule_step-IsUnrequested (c ∷ cs) w (up, stay) =
    (up, All-append Stays w.machines _ stay ((λ l. l), tt))
schedule_step-IsUnrequested [] w (up, stay) = ground arith

take_turn-IsUnrequested :
    (t : Turn) (w : Wrapper) → IsQuietTurn t → IsUnrequested w → IsUnrequested (take_turn t w)
unfolding take_turn move_machine main_step
take_turn-IsUnrequested (command i input) w q (up, stay) =
    elim (Option-cases (machine i w.machines)) [
      | inl nobody ↦ rw nobody (up, stay)
      | inr (m, here) ↦
          let stays = All-machine Stays i m w.machines stay here in
          let (quiet, stays', more) = own-IsQuiet m.command input w.store m.pc m.calls up stays in
          rw here (
            apply_move-IsUnrequested i m (move m.command input w.store m.pc m.calls) w (up, stay)
              quiet stays')
    ]
take_turn-IsUnrequested scheduler w q u = schedule_step-IsUnrequested w.pending w u
take_turn-IsUnrequested main w q u = ground arith
take_turn-IsUnrequested (outside a) w q (up, stay) = (perform-IsQuiet a w.store q up, stay)

pub advance_all-IsUnrequested :
    (turns : List Turn) (w : Wrapper)
    → All IsQuietTurn turns
    → IsUnrequested w
    → IsUnrequested (advance_all turns w)
unfolding advance_all advance
advance_all-IsUnrequested [] w q u = u
advance_all-IsUnrequested (t ∷ turns) w q u =
    advance_all-IsUnrequested turns (advance t w) q.1 (elim (Bool-cases (is_running w.phase)) [
      | inl up ↦ rw up (take_turn-IsUnrequested t w q.0 u)
      | inr over ↦ rw over u
    ])

nobody-finished :
    (ms : List Machine)
    → All Stays ms
    → All (λ (m : Machine). m.pc ≡ finished) ms
    → commands_of ms ≡ []
nobody-finished [] h e = refl
nobody-finished (m ∷ ms) h e = absurd (h.0 (rw e.0 tt))

-- The wrapper does not return of itself: if a command of the configuration is not skipped and the
-- shutdown flag is not set at the start, then `main` returns only if another goroutine than the commands
-- requests a shutdown. (To cancel the context of the commands is no such request.)
pub completed-requested :
    (s : State) (skip : List Str) (cs : List Command) (turns : List Turn)
    → s.shutdown ≡ false
    → schedule skip cs ≢ []
    → (advance_all turns (started s skip cs)).phase ≡ completed
    → ¬ All IsQuiet (outside_actions turns)
completed-requested s skip cs turns up some_command over quiet =
    let w = advance_all turns (started s skip cs) in
    let (started_all, all_finished) = completed-finished s skip cs turns over in
    let (_, stay) =
      advance_all-IsUnrequested turns (started s skip cs) (quiet-turns turns quiet)
        (unfold started in (up, tt)) in
    some_command (sym started_all ∙ nobody-finished w.machines stay all_finished)

-- The end of another container of the pod does not make `main` return: in every run of the wrapper in
-- which `ReadStatusController` cancels the context of the commands, or not, and nobody else requests a
-- shutdown, `main` does not return, if a command of the configuration is not skipped.
pub pods-completed :
    (s : State) (skip : List Str) (cs : List Command) (value : Str) (c : CancelFunc)
    (ws : List PodWorld) (rest : List Action) (turns : List Turn)
    → s.shutdown ≡ false
    → schedule skip cs ≢ []
    → Interleaves (new_pod_status value c ws) rest (outside_actions turns)
    → All IsQuiet rest
    → (advance_all turns (started s skip cs)).phase ≢ completed
pods-completed s skip cs value c ws rest turns up some_command i q over =
    completed-requested s skip cs turns up some_command over
      (All-Interleaves i (new_pod_status-IsQuiet value c ws) q)
