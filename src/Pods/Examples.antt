-- ===== src/Pods/Examples.antt =====
-- Tests of the pod status.
use process_wrapper.Prelude.{◌≡◌, ◌↔◌, refl, true, List, [], ◌∷◌, some, codes, str_eq}
use process_wrapper.Prelude.Int.{pos}
use process_wrapper.Prelude.Dict.{lookup}
use process_wrapper.Action.{cancel}
use process_wrapper.Signals.Termination.{Contains}
use process_wrapper.Pods.{ContainerStatus, PodWorld, read_status, read_status_controller}
use process_wrapper.Pods.Completion.{SomeCompleted, read_status_cancels_iff}

abbrev completed : ContainerStatus
completed = record {
  name = codes "main";
  state = (codes "terminated", record { exit_code = pos 0; reason = codes "Completed" }) ∷ [];
}

abbrev failing : ContainerStatus
failing = record {
  name = codes "main";
  state = (codes "terminated", record { exit_code = pos 1; reason = codes "Error" }) ∷ [];
}

abbrev statuses : List ContainerStatus
statuses = failing ∷ completed ∷ []

abbrev pod : PodWorld
pod = record {
  pod_namespace = codes "jobs";
  token = some (codes "secret");
  get_pod = λ namespace token. some (codes "data");
  unmarshal = λ text old. (statuses, true);
}

abbrev unnamed : PodWorld
unnamed = record pod { pod_namespace = [] }

-- An error does not end the loop of the controller.
goes_on : read_status_controller 9 (unnamed ∷ pod ∷ []) [] ≡ cancel 9 ∷ []
unfolding read_status_controller lookup str_eq
goes_on = refl

read_status_cancels_iff_example :
    Contains (cancel 9) (read_status pod 9 []).1 ↔ SomeCompleted statuses
read_status_cancels_iff_example =
    read_status_cancels_iff pod 9 [] statuses (codes "secret") (codes "data") refl refl refl refl
