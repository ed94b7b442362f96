-- ===== src/Maps/Reports.antt =====
-- Health checkers and `Run` of several processes report to one map (pkg/process/health.go): what the
-- map is afterwards, and what is read of it.
use mathlib.Core.Quot
use process_wrapper.Prelude.{
  ◌≡◌, ◌≢◌, ◌⊎◌, inl, inr, refl, sym, ap, ◌∙◌, Bool, List, [], ◌∷◌, Option, Str, str_eq_iff, arith,
  All,
}
use process_wrapper.State.{State, readiness, liveness, is_preempted, all_healthy}
use process_wrapper.Action.{Action, write_state, drop_state, perform_all}
use process_wrapper.Action.Invariant.{IsWellFormed, perform_all-IsWellFormed}
use process_wrapper.Action.Reports.{last_report, status-last_report}
use process_wrapper.Signals.Termination.{Interleaves, none_left, first, second}
use process_wrapper.Endpoints.{is_nil, count_unhealthy, create_readiness_file}
use process_wrapper.Maps.{statuses, healthy}
use process_wrapper.Maps.Counts.{unhealthy, is_empty_map}

-- The action leaves the status of the process alone.
abbrev pub IsSilent : Str → Action → Type 0
IsSilent name (write_state n b) = n ≢ name
IsSilent name (drop_state n) = n ≢ name
IsSilent name _ = Unit

-- The status after one action.
abbrev reported : Str → Action → Option Bool → Option Bool
reported name a before = last_report name (a ∷ []) before

last_report-cons :
    (name : Str) (a : Action) (rest : List Action) (before : Option Bool)
    → last_report name (a ∷ rest) before ≡ last_report name rest (reported name a before)
last_report-cons name (write_state n b) rest before = refl
last_report-cons name (drop_state n) rest before = refl
last_report-cons name _ rest before = refl

reported-IsSilent :
    (name : Str) (a : Action) (before : Option Bool)
    → IsSilent name a
    → reported name a before ≡ before
reported-IsSilent name (write_state n b) before h = ground (arith, str_eq_iff n name)
reported-IsSilent name (drop_state n) before h = ground (arith, str_eq_iff n name)
reported-IsSilent name _ before h = refl

second_silent :
    (name : Str) (before : Option Bool) {xs ys zs : List Action}
    → Interleaves xs ys zs
    → All (IsSilent name) ys
    → last_report name zs before ≡ last_report name xs before
second_silent name before none_left h = refl
second_silent name before (first {a = a} {xs = xs} {zs = zs} i) h =
    last_report-cons name a zs before
    ∙ second_silent name (reported name a before) i h
    ∙ sym (last_report-cons name a xs before)
second_silent name before (second {a = a} {zs = zs} i) h =
    last_report-cons name a zs before
    ∙ ap (last_report name zs) (reported-IsSilent name a before h.0)
    ∙ second_silent name before i h.1

flip : {xs ys zs : List Action} → Interleaves xs ys zs → Interleaves ys xs zs
flip none_left = none_left
flip (first i) = second (flip i)
flip (second i) = first (flip i)

-- No process has its status changed by both of two goroutines.
abbrev pub AreSeparate : List Action → List Action → Type 0
AreSeparate xs ys = (name : Str) → All (IsSilent name) xs ⊎ All (IsSilent name) ys

same_reports :
    (name : Str) (before : Option Bool) (xs ys zs zs' : List Action)
    → AreSeparate xs ys
    → Interleaves xs ys zs
    → Interleaves xs ys zs'
    → last_report name zs before ≡ last_report name zs' before
same_reports name before xs ys zs zs' apart i i' = elim (apart name) [
  | inl h ↦ second_silent name before (flip i) h ∙ sym (second_silent name before (flip i') h)
  | inr h ↦ second_silent name before i h ∙ sym (second_silent name before i' h)
]

all_healthy-statuses :
    (s t : State) (w : IsWellFormed s) (v : IsWellFormed t)
    → statuses s w ≡ statuses t v
    → all_healthy s.status_map ≡ all_healthy t.status_map
unfolding healthy
all_healthy-statuses s t w v same = ap healthy same

count_unhealthy-statuses :
    (s t : State) (w : IsWellFormed s) (v : IsWellFormed t)
    → statuses s w ≡ statuses t v
    → count_unhealthy s.status_map ≡ count_unhealthy t.status_map
unfolding unhealthy
count_unhealthy-statuses s t w v same = ap unhealthy same

is_nil-statuses :
    (s t : State) (w : IsWellFormed s) (v : IsWellFormed t)
    → statuses s w ≡ statuses t v
    → is_nil s.status_map ≡ is_nil t.status_map
unfolding is_empty_map
is_nil-statuses s t w v same = ap is_empty_map same

liveness-statuses :
    (s t : State) (w : IsWellFormed s) (v : IsWellFormed t)
    → statuses s w ≡ statuses t v
    → liveness s ≡ liveness t
unfolding liveness
liveness-statuses s t w v same = all_healthy-statuses s t w v same

-- Two goroutines that report the statuses of different processes leave the same map of statuses, and
-- the same answer of `Liveness`, however their actions are interleaved.
pub interleavings-statuses :
    (xs ys zs zs' : List Action) (s : State) (w : IsWellFormed s)
    → AreSeparate xs ys
    → Interleaves xs ys zs
    → Interleaves xs ys zs'
    → (statuses (perform_all zs s) (perform_all-IsWellFormed zs s w)
        ≡ statuses (perform_all zs' s) (perform_all-IsWellFormed zs' s w))
      × (liveness (perform_all zs s) ≡ liveness (perform_all zs' s))
interleavings-statuses xs ys zs zs' s w apart i i' =
    let same = Quot.sound (λ name.
      status-last_report name zs s
      ∙ same_reports name _ xs ys zs zs' apart i i'
      ∙ sym (status-last_report name zs' s)) in
    let v = perform_all-IsWellFormed zs s w in
    let v' = perform_all-IsWellFormed zs' s w in
    (same, liveness-statuses (perform_all zs s) (perform_all zs' s) v v' same)

-- What is read of the statuses does not depend on the order in which Go iterates over them: two
-- well-formed states with the same map of statuses, both preempted or both not, have the same
-- `Readiness`, the same `Liveness`, and let `CreateReadinessFile` do the same.
pub same_statuses-tests :
    (s t : State) (w : IsWellFormed s) (v : IsWellFormed t) (writable : Bool)
    (rounds : List (State × Bool))
    → statuses s w ≡ statuses t v
    → is_preempted s ≡ is_preempted t
    → (readiness s ≡ readiness t)
      × (liveness s ≡ liveness t)
      × (create_readiness_file ((s, writable) ∷ rounds)
          ≡ create_readiness_file ((t, writable) ∷ rounds))
unfolding readiness create_readiness_file
same_statuses-tests s t w v writable rounds same preempted = (
  ground (arith, all_healthy-statuses s t w v same),
  liveness-statuses s t w v same,
  ground (arith, count_unhealthy-statuses s t w v same, is_nil-statuses s t w v same),
)
