-- ===== src/Main/Waits.antt =====
-- `process-wrapper -wait` beside the wrapper whose readiness file it waits for: `WaitReadiness` of
-- main.go, and `CreateReadinessFile` and `RemoveReadinessFile` of pkg/process/health.go.
use process_wrapper.Prelude.{
  ◌≡◌, ◌⊎◌, refl, inl, inr, Bool, true, false, List, [], ◌∷◌, arith, if◌then◌else◌, Bool-cases,
}
use process_wrapper.State.{State}
use process_wrapper.Endpoints.{create_readiness_file}
use process_wrapper.Endpoints.Waiting.{IsReadyRound, SomeReadyRound, create_readiness_file_iff}
use process_wrapper.Main.{WaitRound, ready, wait_readiness}

-- A round of the wrapper over its file, the removal of the file by the signal handler, or a round of
-- the waiting process, with whether its timer has fired.
pub data FileStep : Type 0 where
  wrapper_round : State → Bool → FileStep
  removal : FileStep
  poll : Bool → FileStep

-- The rounds of the wrapper.
abbrev pub wrapper_rounds : List FileStep → List (State × Bool)
wrapper_rounds [] = []
wrapper_rounds (wrapper_round s writable ∷ steps) = (s, writable) ∷ wrapper_rounds steps
wrapper_rounds (_ ∷ steps) = wrapper_rounds steps

-- The rounds of the waiting process. The wrapper writes the file, which then is there until its
-- removal; `exists` is whether it is there, be it from an earlier run, `written` whether the wrapper
-- has written it, after which its loop has returned.
abbrev pub polls : List FileStep → Bool → Bool → List WaitRound
polls [] exists written = []
polls (wrapper_round s writable ∷ steps) exists written =
    if written
    then polls steps exists written
    else (if create_readiness_file ((s, writable) ∷ [])
        then polls steps true true
        else polls steps exists false)
polls (removal ∷ steps) exists written = polls steps false written
polls (poll fired ∷ steps) exists written =
    record { fired = fired; exists = exists } ∷ polls steps exists written

one_round :
    (s : State) (writable : Bool)
    → create_readiness_file ((s, writable) ∷ []) ≡ true
    → IsReadyRound (s, writable)
one_round s writable h = elim ((create_readiness_file_iff ((s, writable) ∷ [])).0 h) [
  | inl r ↦ r
  | inr r ↦ absurd r
]

wait_readiness-absent :
    (fired : Bool) (rounds : List WaitRound)
    → (wait_readiness (record { fired = fired; exists = false } ∷ rounds)).1 ≡ ready
    → (wait_readiness rounds).1 ≡ ready
unfolding wait_readiness
wait_readiness-absent fired rounds h = ground arith

-- A poll that ends the wait with success found the file.
wait_readiness-poll :
    (fired exists : Bool) (rounds : List WaitRound)
    → (wait_readiness (record { fired = fired; exists = exists } ∷ rounds)).1 ≡ ready
    → (exists ≡ true) ⊎ ((wait_readiness rounds).1 ≡ ready)
unfolding wait_readiness
wait_readiness-poll fired true rounds h = inl refl
wait_readiness-poll fired false rounds h = inr (wait_readiness-absent fired rounds h)

polls-ready :
    (steps : List FileStep) (exists written : Bool)
    → (wait_readiness (polls steps exists written)).1 ≡ ready
    → (exists ≡ true) ⊎ SomeReadyRound (wrapper_rounds steps)
polls-ready [] exists written h = absurd (unfold wait_readiness in cc)
polls-ready (wrapper_round s writable ∷ steps) exists true h =
    elim (polls-ready steps exists true h) [ inl e ↦ inl e | inr r ↦ inr (inr r) ]
polls-ready (wrapper_round s writable ∷ steps) exists false h =
    elim (Bool-cases (create_readiness_file ((s, writable) ∷ []))) [
      | inl wrote ↦ inr (inl (one_round s writable wrote))
      | inr failed ↦ elim (polls-ready steps exists false (rw failed at h)) [
        | inl e ↦ inl e
        | inr r ↦ inr (inr r)
      ]
    ]
polls-ready (removal ∷ steps) exists written h = elim (polls-ready steps false written h) [
  | inl e ↦ absurd cc
  | inr r ↦ inr r
]
polls-ready (poll fired ∷ steps) exists written h =
    elim (wait_readiness-poll fired exists (polls steps exists written) h) [
      | inl e ↦ inl e
      | inr rest ↦ polls-ready steps exists written rest
    ]

-- If `process-wrapper -wait` succeeds beside a wrapper that has not yet written its readiness file,
-- however the rounds of the two and the removal of the file are interleaved, then either a readiness
-- file was there from the start, or the wrapper has met a round in which some process had a status,
-- none was unhealthy, and the file could be written.
pub wait_readiness_sound :
    (steps : List FileStep) (exists : Bool)
    → (wait_readiness (polls steps exists false)).1 ≡ ready
    → (exists ≡ true) ⊎ SomeReadyRound (wrapper_rounds steps)
wait_readiness_sound steps exists h = polls-ready steps exists false h

-- A readiness file that an earlier run has left ends the wait at once.
pub wait_readiness-stale :
    (steps : List FileStep) → (wait_readiness (polls (poll false ∷ steps) true false)).1 ≡ ready
unfolding wait_readiness
wait_readiness-stale steps = refl
