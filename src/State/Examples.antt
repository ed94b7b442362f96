-- ===== src/State/Examples.antt =====
-- Tests of the shared state.
use Prim.Native.Nat.{min}
use process_wrapper.Prelude.{str_eq, ◌*◌, ◌+◌, ◌≡◌, refl, false, List, [], ◌∷◌, codes, count, arith}
use process_wrapper.Prelude.Dict.{lookup, lookup_or, insert}
use process_wrapper.Clock.{Time, seconds, nanos}
use process_wrapper.State.{
  push_history, print_state, set_state, num_of_restarts, is_recent, floating_pid_history, set_pid,
  new_state,
}
use process_wrapper.State.Restarts.{
  IsChronological, Restart, record_restarts, times_of, num_of_restarts_exact,
}
use process_wrapper.Sample.{web, fresh}

-- Some hours after the epoch of Unix.
abbrev now : Time
now = 62135600000 * nanos

abbrev starts : List Restart
starts =
    record { name = web; pid = 3; time = now }
    ∷ record { name = codes "api"; pid = 4; time = now + nanos }
    ∷ record { name = web; pid = 5; time = now + 30 * nanos }
    ∷ []

abbrev later : Time
later = now + 35 * nanos

one_recent : num_of_restarts (λ i. later) (seconds 10) web (record_restarts starts fresh) ≡ 1
unfolding num_of_restarts record_restarts set_pid insert new_state lookup_or
one_recent = refl

chronological : IsChronological (times_of web starts)
unfolding str_eq
chronological = omega arith

num_of_restarts_exact_example :
    num_of_restarts (λ i. later) (seconds 10) web (record_restarts starts fresh)
    ≡ min floating_pid_history (count (is_recent later (seconds 10)) (times_of web starts))
num_of_restarts_exact_example =
    num_of_restarts_exact starts web fresh (λ i. later) later (seconds 10)
      (unfold lookup new_state in refl) chronological (λ j. refl)

-- The pid of a command stays in the map, whatever becomes of its process.
printed :
    print_state (set_state web false (set_pid web 7 5 (new_state (codes "/tmp/started") false)))
    ≡ (record { name = web; pid = 7; ready = false; terminating = false } ∷ [], false)
unfolding print_state set_state set_pid new_state insert lookup_or lookup push_history str_eq
printed = refl
