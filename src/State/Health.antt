-- ===== src/State/Health.antt =====
-- What `Readiness` and `Liveness` answer (pkg/process/health.go).
use process_wrapper.Prelude.{
  ◌≡◌, refl, ◌≢◌, ◌↔◌, Bool, true, false, [], ◌∷◌, some, Str, str_eq_refl, str_eq_iff, arith,
}
use process_wrapper.Prelude.Dict.{Dict, IsDict, lookup}
use process_wrapper.State.{State, all_healthy, readiness, liveness}

-- No process is recorded as unhealthy.
abbrev pub NoneUnhealthy : Dict Bool → Type 0
NoneUnhealthy m = (name : Str) → lookup name m ≢ some false

pub all_healthy_sound :
    (m : Dict Bool) (name : Str) → all_healthy m ≡ true → lookup name m ≢ some false
unfolding all_healthy lookup
all_healthy_sound [] name h e = cc
all_healthy_sound ((n, b) ∷ m) name h e = ground (arith, all_healthy_sound m name)

NoneUnhealthy-tail :
    (n : Str) (b : Bool) (m : Dict Bool)
    → IsDict ((n, b) ∷ m)
    → NoneUnhealthy ((n, b) ∷ m)
    → NoneUnhealthy m
unfolding lookup
NoneUnhealthy-tail n b m d h name e = ground (arith, h name, str_eq_iff n name)

pub all_healthy_complete : (m : Dict Bool) → IsDict m → NoneUnhealthy m → all_healthy m ≡ true
unfolding all_healthy lookup
all_healthy_complete [] d h = refl
all_healthy_complete ((n, b) ∷ m) d h =
    ground (arith, h n, str_eq_refl n, all_healthy_complete m d.1 (NoneUnhealthy-tail n b m d h))

-- `Liveness` answers true exactly when no process is recorded as unhealthy.
pub liveness_iff :
    (s : State) → IsDict s.status_map → (liveness s ≡ true) ↔ NoneUnhealthy s.status_map
unfolding liveness
liveness_iff s d =
    ((λ h name. all_healthy_sound s.status_map name h), all_healthy_complete s.status_map d)

-- `Readiness` answers true exactly when the node is not preempted and no process is recorded as
-- unhealthy.
pub readiness_iff :
    (s : State)
    → IsDict s.status_map
    → (readiness s ≡ true) ↔ ((s.preempted ≡ false) × NoneUnhealthy s.status_map)
unfolding readiness
readiness_iff s d = (
  (λ h. (ground arith, λ name. all_healthy_sound s.status_map name (ground arith))),
  λ h. ground (arith, all_healthy_complete s.status_map d h.1),
)
