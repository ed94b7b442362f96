-- ===== src/Pods/Completion.antt =====
-- When `ReadStatus` ends the wrapper (pkg/process/container_state.go).
use process_wrapper.Prelude.{
  ◌≡◌, ◌↔◌, ◌⊎◌, inl, inr, refl, true, false, List, [], ◌∷◌, some, Str, codes, arith, str_eq_iff,
  Bool-cases, Option-cases, is_empty,
}
use process_wrapper.Prelude.Int.{pos, ltb_ℤ}
use process_wrapper.Prelude.Dict.{lookup}
use process_wrapper.State.{CancelFunc}
use process_wrapper.Action.{cancel}
use process_wrapper.Signals.Termination.{Contains}
use process_wrapper.Pods.{
  ContainerState, ContainerStatus, PodWorld, is_completed, is_finished, handle_containers,
  read_status,
}

-- A container that has terminated with the reason `Completed` and an exit code below 1.
pub record IsCompleted (s : ContainerStatus) : Type 0 where
  pub terminated : ContainerState
  pub has_terminated : lookup (codes "terminated") s.state ≡ some terminated
  pub reason : terminated.reason ≡ codes "Completed"
  pub exit_code : ltb_ℤ terminated.exit_code (pos 1) ≡ true

abbrev pub SomeCompleted : List ContainerStatus → Type 0
SomeCompleted [] = ⊥
SomeCompleted (s ∷ statuses) = IsCompleted s ⊎ SomeCompleted statuses

is_finished-IsCompleted : (s : ContainerStatus) → is_finished s ≡ true → IsCompleted s
unfolding is_finished is_completed
is_finished-IsCompleted s h = elim (Option-cases (lookup (codes "terminated") s.state)) [
  | inl none_there ↦ absurd (ground arith)
  | inr (t, there) ↦ record {
    terminated = t;
    has_terminated = there;
    reason = (str_eq_iff t.reason (codes "Completed")).0 (ground arith);
    exit_code = ground arith;
  }
]

IsCompleted-is_finished : (s : ContainerStatus) → IsCompleted s → is_finished s ≡ true
unfolding is_finished is_completed
IsCompleted-is_finished s h =
    rw
      (
        is_finished,
        is_completed,
        h.has_terminated,
        (str_eq_iff h.terminated.reason (codes "Completed")).1 h.reason,
      )
      h.exit_code

handle_containers-cancels :
    (c : CancelFunc) (statuses : List ContainerStatus)
    → Contains (cancel c) (handle_containers c statuses) ↔ SomeCompleted statuses
unfolding handle_containers
handle_containers-cancels c [] = (λ h. h, λ h. h)
handle_containers-cancels c (s ∷ statuses) =
    let rest = handle_containers-cancels c statuses in
    elim (Bool-cases (is_finished s)) [
      | inl done ↦ rw done (λ h. inl (is_finished-IsCompleted s done), λ h. inl refl)
      | inr going ↦ rw going (
        λ h. inr (rest.0 h),
        λ h. elim h [
          | inl over ↦ absurd (let t = IsCompleted-is_finished s over in ground arith)
          | inr more ↦ rest.1 more
        ],
      )
    ]

-- If the namespace of the pod is set, and the token, the answer of the API server and its decoding
-- are free of error, then `ReadStatus` cancels the context of the commands exactly when some
-- container of the decoded pod has completed.
pub read_status_cancels_iff :
    (w : PodWorld) (c : CancelFunc) (old statuses : List ContainerStatus) (token text : Str)
    → is_empty w.pod_namespace ≡ false
    → w.token ≡ some token
    → w.get_pod w.pod_namespace token ≡ some text
    → w.unmarshal text old ≡ (statuses, true)
    → Contains (cancel c) (read_status w c old).1 ↔ SomeCompleted statuses
unfolding read_status
read_status_cancels_iff w c old statuses token text named h answered decoded =
    rw (named, h, answered, decoded) (handle_containers-cancels c statuses)
