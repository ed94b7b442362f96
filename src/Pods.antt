-- ===== src/Pods.antt =====
-- The pod that the wrapper runs in: `PodStatus` and `ReadStatus` of pkg/process/container_state.go.
-- The API server and the JSON codec are arguments.
pub mod Completion
pub mod Quiet
mod Examples
use process_wrapper.Prelude.{
  ◌++◌, Bool, true, false, ◌&&◌, ◌||◌, List, [], ◌∷◌, Option, none, some, Str, codes, str_eq,
  is_empty, if◌then◌else◌,
}
use process_wrapper.Prelude.Int.{ℤ, pos, ltb_ℤ}
use process_wrapper.Prelude.Dict.{Dict, lookup}
use process_wrapper.State.{CancelFunc}
use process_wrapper.Action.{Action, cancel}

-- The fields of the two structs that `ReadStatus` reads.
pub record ContainerState : Type 0 where
  pub exit_code : ℤ
  pub reason : Str

pub record ContainerStatus : Type 0 where
  pub name : Str
  pub state : Dict ContainerState

-- What one call of `ReadStatus` meets. `get_pod` is the answer of the API server for a namespace: an
-- error of the request or of the reading of its body, or the data; `unmarshal` the effect of the
-- codec on the statuses that the struct holds, with whether it is free of error.
pub record PodWorld : Type 0 where
  pub pod_namespace : Str
  pub token : Option Str
  pub get_pod : Str → Str → Option Str
  pub unmarshal : Str → List ContainerStatus → List ContainerStatus × Bool

-- `state.Reason == "Completed" && state.ExitCode < 1`
unfoldable pub is_completed : ContainerState → Bool
unfolding str_eq
is_completed s = str_eq s.reason (codes "Completed") && ltb_ℤ s.exit_code (pos 1)

-- The body of the loop over the containers.
unfoldable pub is_finished : ContainerStatus → Bool
unfolding is_completed lookup
is_finished s = elim (lookup (codes "terminated") s.state) [
  | none ↦ false
  | some t ↦ is_completed t
]

unfoldable pub handle_containers : CancelFunc → List ContainerStatus → List Action
unfolding is_finished
handle_containers c [] = []
handle_containers c (s ∷ statuses) =
    let rest = handle_containers c statuses in if is_finished s then cancel c ∷ rest else rest

-- The statuses that the struct holds afterwards, the actions, and whether the call is free of error.
abbrev pub StatusRead : Type 0
StatusRead = List ContainerStatus × List Action × Bool

abbrev unmarshalled : CancelFunc → List ContainerStatus × Bool → StatusRead
unmarshalled c (statuses, true) = (statuses, handle_containers c statuses, true)
unmarshalled c (statuses, false) = (statuses, [], false)

-- `ReadStatus`
unfoldable pub read_status : PodWorld → CancelFunc → List ContainerStatus → StatusRead
unfolding handle_containers
read_status w c old = if is_empty w.pod_namespace then (old, [], false) else elim w.token [
  | none ↦ (old, [], false)
  | some token ↦ elim (w.get_pod w.pod_namespace token) [
    | none ↦ (old, [], false)
    | some data_ ↦ unmarshalled c (w.unmarshal data_ old)
  ]
]

-- Rounds of the loop of `ReadStatusController`: an error is logged, and the loop goes on.
unfoldable pub read_status_controller :
    CancelFunc → List PodWorld → List ContainerStatus → List Action
unfolding read_status
read_status_controller c [] old = []
read_status_controller c (w ∷ ws) old =
    let (statuses, actions, ok) = read_status w c old in
    actions ++ read_status_controller c ws statuses

-- The values of `HANDLE_TERMINATION` that enable it.
unfoldable pub handles_termination : Str → Bool
unfolding str_eq
handles_termination value =
    str_eq value (codes "1") || str_eq value (codes "true") || str_eq value (codes "enabled")

-- `NewPodStatus`, whose statuses are empty at first, with the `ReadStatusController` that it starts.
unfoldable pub new_pod_status : Str → CancelFunc → List PodWorld → List Action
unfolding handles_termination read_status_controller
new_pod_status value c ws = if handles_termination value then read_status_controller c ws [] else []
