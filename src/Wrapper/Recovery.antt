-- ===== src/Wrapper/Recovery.antt =====
-- From the end of a process to the next call of `Run` (pkg/process/process.go), whatever the other
-- goroutines do.
use process_wrapper.Prelude.{ℕ, ◌<◌, ◌≤◌, ◌≡◌, false, List, [], ◌∷◌, arith, All}
use process_wrapper.Action.{perform_all, Action}
use process_wrapper.Command.{Command}
use process_wrapper.Signals.Termination.{Interleaves, none_left, first, second}
use process_wrapper.Lifecycle.{tick, move, test_killed, wait, System, Tick, own, other, run}
use process_wrapper.Lifecycle.Shutdown.{own_ticks}
use process_wrapper.Lifecycle.Restart.{perform-IsQuiet, IsQuiet, IsQuietTick, run-restarts}

-- What the other goroutines do in the ticks.
abbrev pub other_actions : List Tick → List Action
other_actions [] = []
other_actions (own i ∷ ticks) = other_actions ticks
other_actions (other a ∷ ticks) = a ∷ other_actions ticks

pub quiet-ticks : (ticks : List Tick) → All IsQuiet (other_actions ticks) → All IsQuietTick ticks
quiet-ticks [] q = tt
quiet-ticks (own i ∷ ticks) q = (tt, quiet-ticks ticks q)
quiet-ticks (other a ∷ ticks) q = (q.0, quiet-ticks ticks q.1)

pub All-Interleaves :
    {xs ys zs : List Action}
    → Interleaves xs ys zs
    → All IsQuiet xs
    → All IsQuiet ys
    → All IsQuiet zs
All-Interleaves none_left p q = tt
All-Interleaves (first i) p q = (p.0, All-Interleaves i p.1 q)
All-Interleaves (second i) p q = (q.0, All-Interleaves i p q.1)

-- `Run` of a command whose process runs is called again within seven moves, the end of the process
-- being the first.
pub running-restarts :
    (c : Command) (ticks : List Tick) (y : System) (r : ℕ)
    → All IsQuietTick ticks
    → y.store.shutdown ≡ false
    → y.pc ≡ wait r
    → 7 ≤ own_ticks ticks
    → y.calls < (run c ticks y).calls
unfolding run tick move perform_all
running-restarts c [] y r q d w l = absurd (omega arith)
running-restarts c (own i ∷ ticks) y r q d w l = rw w (
    run-restarts c ticks (record { store = y.store; pc = test_killed r; calls = y.calls }) q.1 d
      (omega arith) (omega arith))
running-restarts c (other a ∷ ticks) y r q d w l =
    running-restarts c ticks (tick c (other a) y) r q.1 (perform-IsQuiet a y.store q.0 d) w l
