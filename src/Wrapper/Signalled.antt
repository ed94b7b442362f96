-- ===== src/Wrapper/Signalled.antt =====
-- From a signal to the end of the program: `Notify` (pkg/signals/signals.go), the commands
-- (pkg/process/process.go) and the main goroutine (main.go) together.
use process_wrapper.Prelude.{◌≡◌, refl, true, List, [], ◌∷◌, Str, All, inl, inr}
use process_wrapper.State.{State}
use process_wrapper.Action.{
  Action, Signal, sigterm, sigkill, sigquit, sigint, sigusr1, sigusr2, write_shutdown,
}
use process_wrapper.Command.{Command}
use process_wrapper.Signals.{Notifier, notify, begin_shutdown}
use process_wrapper.Signals.Termination.{
  Ends, Contains, Interleaves, Contains-Interleaves, begin_shutdown-write_shutdown,
}
use process_wrapper.Wrapper.{
  running, completed, Wrapper, Turn, advance, advance_all, command, scheduler, main, outside,
  is_running, started,
}
use process_wrapper.Wrapper.WaitGroup.{wrapper-IsBalanced}
use process_wrapper.Wrapper.Leaving.{IsEnding, IsAliveMachine, IsHelpfulTurn, IsEnding}
use process_wrapper.Wrapper.Ending.{IsFair, wrapper_ends}
use process_wrapper.Wrapper.Flagged.{
  advance_all-is_running, advance_all-shutdown, outside-write_shutdown,
}
use process_wrapper.Wrapper.Alive.{advance_all-IsAliveRun}

-- What the other goroutines have done in the turns.
abbrev pub outside_actions : List Turn → List Action
outside_actions [] = []
outside_actions (outside a ∷ turns) = a ∷ outside_actions turns
outside_actions (_ ∷ turns) = outside_actions turns

-- The reaction of `Notify` to a signal, up to the sleep that follows the shutdown flag.
abbrev pub reaction : Notifier → State → State → Signal → List Action
reaction n s later sigterm = begin_shutdown s
reaction n s later sigquit = begin_shutdown s
reaction n s later g = notify n s later g

reaction-write_shutdown :
    (n : Notifier) (s later : State) (g : Signal)
    → Ends g
    → Contains write_shutdown (reaction n s later g)
unfolding notify
reaction-write_shutdown n s later sigterm h = begin_shutdown-write_shutdown s
reaction-write_shutdown n s later sigquit h = begin_shutdown-write_shutdown s
reaction-write_shutdown n s later sigint h = inl refl
reaction-write_shutdown n s later sigkill h = absurd h
reaction-write_shutdown n s later sigusr1 h = absurd h
reaction-write_shutdown n s later sigusr2 h = absurd h

-- As long as the program runs, a shutdown that was requested among the turns is seen after them.
requested-shutdown :
    (turns : List Turn) (w : Wrapper)
    → Contains write_shutdown (outside_actions turns)
    → is_running (advance_all turns w).phase ≡ true
    → (advance_all turns w).store.shutdown ≡ true
unfolding advance_all
requested-shutdown [] w c up = absurd c
requested-shutdown (outside a ∷ turns) w (inl e) up =
    let runs = advance_all-is_running (outside a ∷ turns) w up in
    advance_all-shutdown turns (advance (outside a) w) (rw (← e) (outside-write_shutdown w runs))
requested-shutdown (outside a ∷ turns) w (inr c) up =
    requested-shutdown turns (advance (outside a) w) c up
requested-shutdown (command i input ∷ turns) w c up =
    requested-shutdown turns (advance (command i input) w) c up
requested-shutdown (scheduler ∷ turns) w c up = requested-shutdown turns (advance scheduler w) c up
requested-shutdown (main ∷ turns) w c up = requested-shutdown turns (advance main w) c up

started-alive :
    (s : State) (skip : List Str) (cs : List Command)
    → All IsAliveMachine (started s skip cs).machines
unfolding started
started-alive s skip cs = tt

-- From a signal to the end. Let the wrapper run, from its start, through any turns among which the
-- handler has reacted to SIGTERM, SIGQUIT or SIGINT (up to its sleep), and still run, with all commands
-- started and the main goroutine waiting. Then under every continuation in which each command makes the
-- moves that its end needs, the end of its process being one, `main` returns with its next step. (A
-- command that waits for its lock gets it, and one that is just being started can be started.)
pub signal_completes :
    (n : Notifier) (read later s : State) (g : Signal) (skip : List Str) (cs : List Command)
    (others : List Action) (turns last : List Turn)
    → Ends g
    → Interleaves (reaction n read later g) others (outside_actions turns)
    → (advance_all turns (started s skip cs)).phase ≡ running
    → (advance_all turns (started s skip cs)).scheduled ≡ true
    → (advance_all turns (started s skip cs)).waiting ≡ true
    → All IsHelpfulTurn last
    → IsFair last (advance_all turns (started s skip cs))
    → (advance main (advance_all last (advance_all turns (started s skip cs)))).phase ≡ completed
signal_completes n read later s g skip cs others turns last ends i up over waits helpful fair =
    let w = advance_all turns (started s skip cs) in
    let b = wrapper-IsBalanced s skip cs turns in
    let flagged =
      Contains-Interleaves write_shutdown i (reaction-write_shutdown n read later g ends) in
    let runs : is_running w.phase ≡ true = rw up refl in
    let ending : IsEnding w = record {
      down = requested-shutdown turns (started s skip cs) flagged runs;
      alive = advance_all-IsAliveRun turns (started s skip cs) (λ up. started-alive s skip cs) runs;
      none_left = b.ended over;
      over = over;
      no_stop = λ h. cc;
    } in
    wrapper_ends last w b ending (waits, λ h. cc) helpful fair
