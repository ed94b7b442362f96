-- ===== src/Endpoints.antt =====
-- The HTTP endpoints and the readiness file of the wrapper: `HealthEndpoint` and `CreateReadinessFile`
-- of pkg/process/health.go. The JSON codec and the printing of times are arguments.
pub mod Waiting
pub mod Beats
pub mod PromMerge
mod Examples
use process_wrapper.Prelude.{
  ℕ, suc, ◌+◌, Bool, true, false, not, List, [], ◌∷◌, ◌++◌, Option, none, some, Str, ◌==◌, is_empty,
  if◌then◌else◌, length,
}
use process_wrapper.Prelude.Int.{pos}
use process_wrapper.Prelude.Decimal.{decimal}
use process_wrapper.Prelude.Dict.{Dict}
use process_wrapper.Clock.{Time, Duration, seconds}
use process_wrapper.State.{
  State, readiness, liveness, get_pid, get_pids_map, process_state, get_heart_beat, set_heart_beat,
}
use process_wrapper.Action.{Action, write_heart_beat, sleep}
use process_wrapper.Http.{Response, no_response, write_header, write}

pub data Method : Type 0 where
  get patch other_method : Method

-- A loop that waits for a test of the state, over the states that it meets: `none` is a request
-- that is still waiting, with the sleeps before.
unfoldable pub wait_until : (State → Bool) → List State → Option Response × List Action
unfolding write_header
wait_until test [] = (none, [])
wait_until test (s ∷ states) =
    let (answer, sleeps) = wait_until test states in
    if test s
    then (some (write_header 200 no_response), [])
    else (answer, sleep (seconds 1) ∷ sleeps)

-- The answer without `wait`.
unfoldable pub answer_now : Bool → Response
unfolding write_header
answer_now health = if not health then write_header 503 no_response else no_response

-- The body that /readiness and /liveness share: `wait` is `r.URL.Query().Has("wait")`.
abbrev answer_health : (State → Bool) → Bool → List State → Option Response × List Action
answer_health test wait [] = (none, [])
answer_health test wait (s ∷ states) =
    if wait then wait_until test (s ∷ states) else (some (answer_now (test s)), [])

unfoldable pub readiness_endpoint : Bool → List State → Option Response × List Action
unfolding wait_until answer_now readiness
readiness_endpoint wait states = answer_health readiness wait states

unfoldable pub liveness_endpoint : Bool → List State → Option Response × List Action
unfolding wait_until answer_now liveness
liveness_endpoint wait states = answer_health liveness wait states

-- /pidof
unfoldable pub pidof_endpoint : Str → State → Response
unfolding write_header write get_pid
pidof_endpoint name s =
    if is_empty name
    then write_header 400 no_response
    else if get_pid name s == 0
    then write_header 404 no_response
    else write (decimal (get_pid name s)) (write_header 200 no_response)

abbrev pub is_nil {ℓ} : {A : Type ℓ} → List A → Bool
is_nil [] = true
is_nil (x ∷ xs) = false

-- /pids, with the result of the codec
unfoldable pub pids_endpoint : (Dict ℕ → Option Str) → State → Response
unfolding write_header write get_pids_map
pids_endpoint marshal s =
    if is_nil (get_pids_map s)
    then write_header 204 no_response
    else elim (marshal (get_pids_map s)) [
      | none ↦ write [] (write_header 200 (write_header 500 no_response))
      | some text ↦ write text (write_header 200 no_response)
    ]

-- /status
unfoldable pub status_endpoint : (Dict Bool → Str) → State → Response
unfolding write_header write process_state
status_endpoint serialize s =
    if is_nil (process_state s)
    then write_header 204 no_response
    else write (serialize (process_state s)) (write_header 200 no_response)

-- /heartbeat, at the clock `now`. (Its branch of a GET without a name is never reached.)
unfoldable pub heartbeat_endpoint :
    (Str → Time → Str) → Method → Str → Time → State → Response × List Action
unfolding write_header write get_heart_beat
heartbeat_endpoint print_beat method name now s =
    if is_empty name then (write_header 400 no_response, []) else elim method [
      | get ↦ (write (print_beat name (get_heart_beat name s)) no_response, [])
      | patch ↦ (write_header 202 no_response, write_heart_beat name now ∷ [])
      | other_method ↦ (no_response, [])
    ]

-- `unhealthy`
unfoldable pub count_unhealthy : Dict Bool → ℕ
count_unhealthy [] = 0
count_unhealthy ((name, status) ∷ m) =
    let rest = count_unhealthy m in if not status then rest + 1 else rest

-- `CreateReadinessFile`, over the states that its rounds meet and whether the file can be written
-- then: whether it has returned, having written the file. (The sleeps between the rounds are left
-- out.)
unfoldable pub create_readiness_file : List (State × Bool) → Bool
unfolding count_unhealthy process_state
create_readiness_file [] = false
create_readiness_file ((s, writable) ∷ rounds) =
    let rest = create_readiness_file rounds in
    if is_nil (process_state s)
    then rest
    else if count_unhealthy (process_state s) == 0
    then (if writable then true else rest)
    else rest
