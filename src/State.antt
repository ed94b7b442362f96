-- ===== src/State.antt =====
-- The shared `State` of pkg/process/health.go: its fields and the methods that read and write them.
-- Every method holds the lock while it touches a map, so each is one step here.
pub mod Restarts
pub mod Health
mod Examples
use process_wrapper.Prelude.{
  ℕ, suc, ◌+◌, ◌-◌, ◌<◌, Bool, true, false, not, ◌&&◌, List, [], ◌∷◌, ◌++◌, Option, none, some, Str,
  ltb, if◌then◌else◌, length, drop, select, count, str_eq, is_empty,
}
use process_wrapper.Prelude.Int.{ltb_ℤ}
use process_wrapper.Prelude.Dict.{Dict, lookup, lookup_or, insert, delete}
use process_wrapper.Clock.{Time, Duration, unix, before}

abbrev pub floating_pid_history : ℕ
floating_pid_history = 10

-- A `context.CancelFunc` is the number of the context that it cancels.
abbrev pub CancelFunc : Type 0
CancelFunc = ℕ

pub record State : Type 0 where
  pub shutdown : Bool
  pub preempted : Bool
  pub envoy_drain : Bool
  pub readiness_file : Str
  pub killed_map : Dict Bool
  pub status_map : Dict Bool
  pub pids_map : Dict ℕ
  pub floating_pid : Dict (List Time)
  pub heart_beat : Dict Time
  pub cancel_routine_map : Dict CancelFunc

-- The store that `NewState` allocates, before its goroutines run.
unfoldable pub new_state : Str → Bool → State
new_state readiness_file envoy_drain = record {
  shutdown = false;
  preempted = false;
  envoy_drain = envoy_drain;
  readiness_file = readiness_file;
  killed_map = [];
  status_map = [];
  pids_map = [];
  floating_pid = [];
  heart_beat = [];
  cancel_routine_map = [];
}

unfoldable pub is_shutdown : State → Bool
is_shutdown s = s.shutdown

unfoldable pub set_shutdown : State → State
set_shutdown s = record s { shutdown = true }

unfoldable pub set_state : Str → Bool → State → State
set_state name status s = record s { status_map = insert name status s.status_map }

unfoldable pub remove_state : Str → State → State
remove_state name s = record s { status_map = delete name s.status_map }

unfoldable pub set_heart_beat : Str → Time → State → State
set_heart_beat name t s = record s { heart_beat = insert name t s.heart_beat }

unfoldable pub get_heart_beat : Str → State → Time
get_heart_beat name s = lookup_or 0 name s.heart_beat

-- What `append` and the re-slicing leave of a restart history.
unfoldable pub push_history : List Time → Time → List Time
push_history history now =
    let grown = history ++ now ∷ [] in
    if ltb floating_pid_history (length grown)
    then drop (length grown - floating_pid_history) grown
    else grown

unfoldable pub set_pid : Str → ℕ → Time → State → State
unfolding push_history
set_pid name pid now s = record s {
  pids_map = insert name pid s.pids_map;
  floating_pid = insert name (push_history (lookup_or [] name s.floating_pid) now) s.floating_pid;
}

unfoldable pub set_cancel_routine : Str → CancelFunc → State → State
set_cancel_routine name cancel s = record s {
  cancel_routine_map = insert name cancel s.cancel_routine_map;
}

abbrev pub values {ℓ} : {V : Type ℓ} → Dict V → List V
values [] = []
values ((k, v) ∷ m) = v ∷ values m

-- The contexts that `CancelRoutines` cancels, in the order of the iteration.
unfoldable pub cancel_routines : State → List CancelFunc
cancel_routines s = values s.cancel_routine_map

-- The test of `NumOfRestarts` at one restart.
unfoldable pub is_recent : Time → Duration → Time → Bool
unfolding unix before
is_recent now period point = ltb_ℤ (unix (before now period)) (unix point)

-- The loop of `NumOfRestarts`; round `i` reads the clock as `clock i`.
unfoldable pub count_recent : (ℕ → Time) → Duration → ℕ → List Time → ℕ
unfolding is_recent
count_recent clock period i [] = 0
count_recent clock period i (point ∷ points) =
    let rest = count_recent clock period (suc i) points in
    if is_recent (clock i) period point then rest + 1 else rest

unfoldable pub num_of_restarts : (ℕ → Time) → Duration → Str → State → ℕ
unfolding count_recent
num_of_restarts clock period name s = count_recent clock period 0 (lookup_or [] name s.floating_pid)

unfoldable pub get_pids : State → List ℕ
get_pids s = values s.pids_map

-- The copies that `GetPidsMap` and `GetAllHeartBeat` return.
unfoldable pub get_pids_map : State → Dict ℕ
get_pids_map s = s.pids_map

unfoldable pub get_all_heart_beat : State → Dict Time
get_all_heart_beat s = s.heart_beat

unfoldable pub get_pid : Str → State → ℕ
get_pid name s = lookup_or 0 name s.pids_map

unfoldable pub set_kill_state : Str → Bool → State → State
set_kill_state name status s = record s { killed_map = insert name status s.killed_map }

unfoldable pub is_killed : Str → State → Bool
is_killed name s = lookup_or false name s.killed_map

-- The copy that `ProcessState` returns: the iteration may meet the entries in any order.
unfoldable pub process_state : State → Dict Bool
process_state s = s.status_map

-- `s.Preempted = true` in `PreemptionChecker`.
unfoldable pub set_preempted : State → State
set_preempted s = record s { preempted = true }

unfoldable pub is_preempted : State → Bool
is_preempted s = s.preempted

-- The loop of `Readiness` and `Liveness`: it stops at the first unhealthy process.
unfoldable pub all_healthy : Dict Bool → Bool
all_healthy [] = true
all_healthy ((name, status) ∷ m) = let rest = all_healthy m in if not status then false else rest

unfoldable pub readiness : State → Bool
unfolding all_healthy is_preempted process_state
readiness s = if is_preempted s then false else all_healthy (process_state s)

unfoldable pub liveness : State → Bool
unfolding all_healthy process_state
liveness s = all_healthy (process_state s)

-- A line of `PrintState`; the last line tells whether the node is preempted.
pub record PrintedState : Type 0 where
  pub name : Str
  pub pid : ℕ
  pub ready : Bool
  pub terminating : Bool

abbrev printed_states : Dict Bool → State → List PrintedState
printed_states [] s = []
printed_states ((name, status) ∷ m) s =
    record {
      name = name;
      pid = lookup_or 0 name s.pids_map;
      ready = status;
      terminating = s.shutdown;
    }
    ∷ printed_states m s

unfoldable pub print_state : State → List PrintedState × Bool
unfolding lookup_or
print_state s = (printed_states s.status_map s, s.preempted)

pub record PromTarget : Type 0 where
  pub name : Str
  pub url : Str
  pub extra_labels : List Str

unfoldable pub get_ready_prom_targets : List PromTarget → State → List PromTarget
unfolding process_state
get_ready_prom_targets targets s =
    select (λ (t : PromTarget). lookup_or false t.name (process_state s)) targets
