-- ===== src/Wrapper/Memory.antt =====
-- From a process over its memory limit to a restart: `GetStats` of pkg/process/process_stats.go and `Run`
-- of pkg/process/process.go together.
use process_wrapper.Prelude.{ℕ, ◌<◌, ◌≤◌, ◌≡◌, ◌∙◌, true, false, List, All, arith}
use process_wrapper.Prelude.Float.{Float, IsFloat}
use process_wrapper.Action.{Action, send, sigkill}
use process_wrapper.Command.{Command}
use process_wrapper.Lifecycle.{wait, System, Tick, run}
use process_wrapper.Lifecycle.Shutdown.{own_ticks}
use process_wrapper.Lifecycle.Restart.{IsQuiet}
use process_wrapper.Registry.Accepted.{Prometheus, IsPrometheus}
use process_wrapper.Signals.Termination.{Contains, Interleaves, Contains-Interleaves}
use process_wrapper.Stats.{StatRound, get_stats, new_proc_stats, looping}
use process_wrapper.Stats.Ending.{IsOpen, readings, ending, get_stats-ending}
use process_wrapper.Stats.Limit.{actions}
use process_wrapper.Stats.Sends.{over_limit, get_stats-IsQuiet, get_stats-sends}
use process_wrapper.Lifecycle.Starting.{SomeStart, own_actions, running-starts}
use process_wrapper.Lifecycle.Ending.{IsHelpfulTick}
use process_wrapper.Wrapper.Recovery.{other_actions, quiet-ticks, All-Interleaves, running-restarts}

module _ {ℓ} {F : Type ℓ} ⦃f : Float F⦄ where
  -- From a measurement over the memory limit to a restart. Take rounds of `GetStats` in which its context
  -- is not done, the processor time never drops and no three measurements in a row fail: if one of the
  -- usable measurements is over the limit of the command, then, however the actions of `GetStats` are
  -- interleaved with those of other goroutines, of which none requests a shutdown, the process is sent
  -- SIGKILL, and once `Run` has made eleven moves, the end of the process being the first, it has been
  -- called again, and a new process has been started and its pid recorded. (The name of the process is a text in UTF-8;
  -- the command gets the lock that it may wait for, and can be started where it is being started.)
  pub out_of_memory-restart :
      (p : Prometheus F) (c : Command) (pid : ℕ) (rounds : List StatRound) (others : List Action)
      (ticks : List Tick) (y : System) (r : ℕ)
      → IsFloat F
      → IsPrometheus p
      → p.valid c.name ≡ true
      → All IsOpen rounds
      → ending (readings (new_proc_stats pid (f.of_nat 0) (f.of_nat 0)) rounds) ≡ looping
      → over_limit c (new_proc_stats pid (f.of_nat 0) (f.of_nat 0)) rounds ≡ true
      → Interleaves (actions (get_stats p c pid rounds).steps) others (other_actions ticks)
      → All IsQuiet others
      → y.store.shutdown ≡ false
      → y.pc ≡ wait r
      → All IsHelpfulTick ticks
      → 11 ≤ own_ticks ticks
      → Contains (send pid sigkill) (other_actions ticks)
        × (y.calls < (run c ticks y).calls)
        × SomeStart c.name (own_actions c ticks y)
  out_of_memory-restart p c pid rounds others ticks y r fl laws name live loops over i q up w g n =
      let goes_on = get_stats-ending p c pid rounds fl laws name live ∙ loops in
      let calm = quiet-ticks ticks (All-Interleaves i (get_stats-IsQuiet p c pid rounds) q) in
      (
        Contains-Interleaves (send pid sigkill) i (get_stats-sends p c pid rounds goes_on over),
        running-restarts c ticks y r calm up w (omega arith),
        running-starts c ticks y r g calm up w n,
      )
