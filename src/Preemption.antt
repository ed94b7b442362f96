-- ===== src/Preemption.antt =====
-- The check for preemption: `WaitPreemptionState` and `PreemptionChecker` of pkg/process/health.go. The
-- metadata server is an argument.
pub mod Final
pub mod Requests
mod Examples
use process_wrapper.Prelude.{
  ℕ, Bool, true, false, ◌&&◌, ◌||◌, List, [], ◌∷◌, ◌++◌, Option, none, some, Str, codes, leb, ltb,
  str_eq, if◌then◌else◌,
}
use process_wrapper.Prelude.Int.{pos}
use process_wrapper.State.{CancelFunc}
use process_wrapper.Action.{Action, write_preempted, cancel, sleep, push_event, preempted_event}

-- What one round of the loop gets: whether the request could be built and sent, and whether its body
-- could be read and closed; the status and the body.
pub record Metadata : Type 0 where
  pub built : Bool
  pub sent : Bool
  pub read_ok : Bool
  pub close_ok : Bool
  pub code : ℕ
  pub body : Str

-- The status that a round gets, if none of its tests fails.
unfoldable pub status_of : Metadata → Option Str
status_of m =
    if m.built && m.sent && m.read_ok && m.close_ok
    then (if ltb 299 m.code then none else some m.body)
    else none

-- The answer of a round is `TRUE`.
unfoldable pub is_preemption : Metadata → Bool
unfolding status_of str_eq
is_preemption m = elim (status_of m) [ none ↦ false | some status ↦ str_eq status (codes "TRUE") ]

-- The sleep of half a second after a request that fails.
unfoldable pub after_round : Metadata → List Action
after_round m = if m.built then (if m.sent then [] else sleep (pos 500000000) ∷ []) else []

-- `WaitPreemptionState`, over the rounds that it meets: its actions, and whether it has sent the event.
-- (The event is taken off the channel before it is pushed.)
unfoldable pub wait_preemption_state : List Metadata → List Action × Bool
unfolding is_preemption after_round
wait_preemption_state [] = ([], false)
wait_preemption_state (m ∷ rounds) =
    let (actions, event) = wait_preemption_state rounds in
    if is_preemption m
    then (push_event preempted_event ∷ [], true)
    else (after_round m ++ actions, event)

-- `PreemptionChecker`, whose context only it cancels. (The request to envoy that it starts is modelled in
-- Requests.)
unfoldable pub preemption_checker : CancelFunc → Bool → List Action
preemption_checker preempted_cancel event =
    if event then write_preempted ∷ cancel preempted_cancel ∷ [] else []

-- Whether `NewState` starts the check: the values of `HANDLE_PREEMPTION`.
unfoldable pub handles_preemption : Str → Bool
unfolding str_eq
handles_preemption preemption =
    str_eq preemption (codes "true")
    || str_eq preemption (codes "1")
    || str_eq preemption (codes "enabled")
