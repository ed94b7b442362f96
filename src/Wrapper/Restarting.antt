-- ===== src/Wrapper/Restarting.antt =====
-- From failed probes to a restart in the wrapper with all of its commands: `ProbeRunner`, `Run`,
-- `NewSchedule` (pkg/process/process.go) and the main goroutine (main.go) together.
use process_wrapper.Prelude.{
  ℕ, ◌<◌, ◌≤◌, ◌≡◌, ◌∙◌, true, false, List, [], ◌∷◌, none, some, All, arith,
}
use process_wrapper.Action.{Action, send, sigkill}
use process_wrapper.Command.{Command, probes_undefined}
use process_wrapper.Lifecycle.{other, own, Tick, wait, System, run}
use process_wrapper.Lifecycle.Shutdown.{own_ticks}
use process_wrapper.Lifecycle.Restart.{IsQuiet, IsQuietTick}
use process_wrapper.Runner.{Setup, Vars, Round, probe_runner}
use process_wrapper.Runner.Threshold.{IsLive, kills, observed, probe_runner-kills}
use process_wrapper.Runner.Sends.{probe_runner-IsQuiet, probe_runner-sends}
use process_wrapper.Signals.Termination.{Contains, Interleaves, Contains-Interleaves}
use process_wrapper.Wrapper.{Wrapper, Turn, command, scheduler, main, outside, advance_all}
use process_wrapper.Wrapper.Seen.{Sees, Takes, seen-Sees}
use process_wrapper.Wrapper.Recovery.{All-Interleaves, running-restarts}
use process_wrapper.Lifecycle.Starting.{SomeStart, own_actions, running-starts}
use process_wrapper.Lifecycle.Ending.{IsHelpfulTick}
use process_wrapper.Wrapper.Signalled.{outside_actions}
use process_wrapper.Wrapper.Views.{view, seen, view-advance_all}

abbrev pub IsQuietTurn : Turn → Type 0
IsQuietTurn t = Takes (λ i. Unit) t

pub quiet-turns : (turns : List Turn) → All IsQuiet (outside_actions turns) → All IsQuietTurn turns
quiet-turns [] q = tt
quiet-turns (outside a ∷ turns) q = (q.0, quiet-turns turns q.1)
quiet-turns (command i input ∷ turns) q = (tt, quiet-turns turns q)
quiet-turns (scheduler ∷ turns) q = (tt, quiet-turns turns q)
quiet-turns (main ∷ turns) q = (tt, quiet-turns turns q)

Sees-IsQuietTick : (ticks : List Tick) → All (Sees (λ i. Unit)) ticks → All IsQuietTick ticks
Sees-IsQuietTick [] q = tt
Sees-IsQuietTick (own i ∷ ticks) q = (tt, Sees-IsQuietTick ticks q.1)
Sees-IsQuietTick (other a ∷ ticks) q = (q.0, Sees-IsQuietTick ticks q.1)

-- From failed probes to a restart in the whole wrapper. For a command with probes and without a
-- post-start hook, whose process runs and whose health checker is neither cancelled nor in shutdown: if
-- the answers of the probes meet the specification `kills`, then, however the actions of the health
-- checker are interleaved with those of other goroutines, the moves of all commands, and the steps of
-- `NewSchedule` and of the main goroutine, as long as nobody requests a shutdown, the process is sent
-- SIGKILL, and once the command has made eleven own moves, the end of the process being the first,
-- `Run` has been called again, and a new process has been started and its pid recorded. (The command
-- gets the lock that it may wait for, and can be started where it is being started.)
pub wrapper_restarts :
    (u : Setup) (v : Vars) (rounds : List Round) (rest : List Action) (turns : List Turn)
    (w : Wrapper) (j : ℕ) (c : Command) (y : System) (r : ℕ)
    → u.post_start ≡ none
    → probes_undefined u.probe ≡ false
    → All IsLive rounds
    → kills u.probe.failure_threshold v.failures (observed u v.handles rounds) ≡ true
    → Interleaves (probe_runner u v rounds).0 rest (outside_actions turns)
    → All IsQuiet rest
    → view j w ≡ some (c, y)
    → y.store.shutdown ≡ false
    → y.pc ≡ wait r
    → All IsHelpfulTick (seen j turns w)
    → 11 ≤ own_ticks (seen j turns w)
    → Contains (send u.pid sigkill) (outside_actions turns)
      × ((y' : System) × (view j (advance_all turns w) ≡ some (c, y')) × (y.calls < y'.calls))
      × SomeStart c.name (own_actions c (seen j turns w) y)
wrapper_restarts u v rounds rest turns w j c y r p d l k i q here up waits g n =
    let stopped = probe_runner-kills u v rounds p d l ∙ k in
    let quiet = All-Interleaves i (probe_runner-IsQuiet u v rounds p d l) q in
    let calm =
      Sees-IsQuietTick (seen j turns w)
        (seen-Sees (λ input. Unit) j turns w (quiet-turns turns quiet)) in
    (
      Contains-Interleaves (send u.pid sigkill) i (probe_runner-sends u v rounds p d l stopped),
      (
        run c (seen j turns w) y,
        view-advance_all j turns w c y here,
        running-restarts c (seen j turns w) y r calm up waits (omega arith),
      ),
      running-starts c (seen j turns w) y r g calm up waits n,
    )
