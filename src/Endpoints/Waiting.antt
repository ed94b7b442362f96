-- ===== src/Endpoints/Waiting.antt =====
-- Requests and loops that wait for healthy processes (pkg/process/health.go).
use process_wrapper.Prelude.{
  ℕ, zero, suc, ◌≡◌, ◌↔◌, ◌⊎◌, refl, Bool, true, false, List, [], ◌∷◌, ◌++◌, some, arith, All,
  length, ◌==◌,
}
use process_wrapper.Prelude.Dict.{Dict}
use process_wrapper.Clock.{seconds}
use process_wrapper.State.{State, readiness, all_healthy, process_state}
use process_wrapper.Action.{Action, sleep}
use process_wrapper.Http.{no_response, write_header}
use process_wrapper.Endpoints.{
  is_nil, wait_until, readiness_endpoint, count_unhealthy, create_readiness_file,
}

abbrev pub pauses : ℕ → List Action
pauses zero = []
pauses (suc n) = sleep (seconds 1) ∷ pauses n

wait_until-first :
    (test : State → Bool) (before later : List State) (s : State)
    → All (λ t. test t ≡ false) before
    → test s ≡ true
    → wait_until test (before ++ (s ∷ later))
      ≡ (some (write_header 200 no_response), pauses (length before))
unfolding wait_until
wait_until-first test [] later s h ok = rw ok refl
wait_until-first test (t ∷ before) later s h ok =
    rw (h.0, wait_until-first test before later s h.1 ok) refl

-- A request to /readiness that waits is answered 200 at the first state that it meets in which
-- `Readiness` holds, after a sleep of a second for each state before.
pub readiness_endpoint-waits :
    (before later : List State) (s : State)
    → All (λ t. readiness t ≡ false) before
    → readiness s ≡ true
    → readiness_endpoint true (before ++ (s ∷ later))
      ≡ (some (write_header 200 no_response), pauses (length before))
unfolding readiness_endpoint
readiness_endpoint-waits [] later s h ok = wait_until-first readiness [] later s h ok
readiness_endpoint-waits (t ∷ before) later s h ok =
    wait_until-first readiness (t ∷ before) later s h ok

count_unhealthy-all_healthy : (m : Dict Bool) → (count_unhealthy m == 0) ≡ all_healthy m
unfolding count_unhealthy all_healthy
count_unhealthy-all_healthy [] = refl
count_unhealthy-all_healthy ((name, status) ∷ m) = ground (arith, count_unhealthy-all_healthy m)

-- A round in which some process has a status, none is unhealthy, and the file can be written.
abbrev pub IsReadyRound : State × Bool → Type 0
IsReadyRound (s, writable) =
    (is_nil s.status_map ≡ false) × (all_healthy s.status_map ≡ true) × (writable ≡ true)

abbrev pub SomeReadyRound : List (State × Bool) → Type 0
SomeReadyRound [] = ⊥
SomeReadyRound (r ∷ rounds) = IsReadyRound r ⊎ SomeReadyRound rounds

-- `CreateReadinessFile` has written the file exactly when it has met a round in which some process has
-- a status, no status is unhealthy, and the file could be written.
pub create_readiness_file_iff :
    (rounds : List (State × Bool)) → (create_readiness_file rounds ≡ true) ↔ SomeReadyRound rounds
unfolding create_readiness_file process_state
create_readiness_file_iff [] = ground arith
create_readiness_file_iff ((s, writable) ∷ rounds) =
    ground (arith, count_unhealthy-all_healthy s.status_map, create_readiness_file_iff rounds)
