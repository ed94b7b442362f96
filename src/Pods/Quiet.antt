-- ===== src/Pods/Quiet.antt =====
-- `ReadStatusController` (pkg/process/container_state.go) cancels a context, and requests no shutdown.
use process_wrapper.Prelude.{
  List, [], ◌∷◌, All, All-append, is_empty, Bool-cases, Option-cases, inl, inr,
}
use process_wrapper.State.{CancelFunc}
use process_wrapper.Lifecycle.Restart.{IsQuiet}
use process_wrapper.Pods.{
  Str, ContainerStatus, PodWorld, is_finished, handle_containers, read_status,
  read_status_controller, new_pod_status, handles_termination,
}

handle_containers-IsQuiet :
    (c : CancelFunc) (statuses : List ContainerStatus) → All IsQuiet (handle_containers c statuses)
unfolding handle_containers
handle_containers-IsQuiet c [] = tt
handle_containers-IsQuiet c (s ∷ statuses) =
    let rest = handle_containers-IsQuiet c statuses in
    elim (Bool-cases (is_finished s)) [ inl done ↦ rw done (tt, rest) | inr going ↦ rw going rest ]

read_status-IsQuiet :
    (w : PodWorld) (c : CancelFunc) (old : List ContainerStatus)
    → All IsQuiet (read_status w c old).1
unfolding read_status
read_status-IsQuiet w c old = elim (Bool-cases (is_empty w.pod_namespace)) [
  | inl unnamed ↦ rw unnamed tt
  | inr named ↦ elim (Option-cases w.token) [
    | inl missing ↦ rw (named, missing) tt
    | inr (token, there) ↦ elim (Option-cases (w.get_pod w.pod_namespace token)) [
      | inl silent ↦ rw (named, there, silent) tt
      | inr (text, answered) ↦ elim (Bool-cases (w.unmarshal text old).1) [
        | inl decoded ↦
            rw (named, there, answered, decoded)
              (handle_containers-IsQuiet c (w.unmarshal text old).0)
        | inr garbled ↦ rw (named, there, answered, garbled) tt
      ]
    ]
  ]
]

read_status_controller-IsQuiet :
    (c : CancelFunc) (ws : List PodWorld) (old : List ContainerStatus)
    → All IsQuiet (read_status_controller c ws old)
unfolding read_status_controller
read_status_controller-IsQuiet c [] old = tt
read_status_controller-IsQuiet c (w ∷ ws) old =
    All-append IsQuiet (read_status w c old).1 _ (read_status-IsQuiet w c old)
      (read_status_controller-IsQuiet c ws (read_status w c old).0)

-- Whatever the pod's containers do, `ReadStatusController` requests no shutdown.
pub new_pod_status-IsQuiet :
    (value : Str) (c : CancelFunc) (ws : List PodWorld) → All IsQuiet (new_pod_status value c ws)
unfolding new_pod_status
new_pod_status-IsQuiet value c ws = elim (Bool-cases (handles_termination value)) [
  | inl on ↦ rw on (read_status_controller-IsQuiet c ws [])
  | inr off ↦ rw off tt
]
