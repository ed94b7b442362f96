-- ===== src/Preemption/Final.antt =====
-- What a preemption does to the readiness of the wrapper (pkg/process/health.go).
use process_wrapper.Prelude.{
  ◌≤◌, ◌≡◌, ◌⊎◌, inl, inr, refl, true, false, List, [], ◌∷◌, codes, arith, str_eq, str_eq_refl,
  Bool-cases,
}
use process_wrapper.State.{State, CancelFunc, readiness, is_preempted}
use process_wrapper.Action.{Action, write_preempted, perform, perform_all}
use process_wrapper.Signals.Termination.{Contains, Interleaves, Contains-Interleaves}
use process_wrapper.Preemption.{
  ltb, Metadata, status_of, is_preemption, wait_preemption_state, preemption_checker,
}

-- A round without an error in which the metadata server announces the preemption.
abbrev pub IsAnnouncement : Metadata → Type 0
IsAnnouncement m =
    (m.built ≡ true)
    × (m.sent ≡ true)
    × (m.read_ok ≡ true)
    × (m.close_ok ≡ true)
    × (m.code ≤ 299)
    × (m.body ≡ codes "TRUE")

abbrev pub SomeAnnouncement : List Metadata → Type 0
SomeAnnouncement [] = ⊥
SomeAnnouncement (m ∷ rounds) = IsAnnouncement m ⊎ SomeAnnouncement rounds

is_preemption-IsAnnouncement : (m : Metadata) → IsAnnouncement m → is_preemption m ≡ true
unfolding is_preemption status_of
is_preemption-IsAnnouncement m (b, s, r, c, small, t) =
    let low : ltb 299 m.code ≡ false = ground arith in
    let same : str_eq m.body (codes "TRUE") ≡ true = rw t (str_eq_refl (codes "TRUE")) in
    rw (is_preemption, status_of, b, s, r, c, low) same

wait_preemption_state-event :
    (rounds : List Metadata) → SomeAnnouncement rounds → (wait_preemption_state rounds).1 ≡ true
unfolding wait_preemption_state
wait_preemption_state-event [] h = absurd h
wait_preemption_state-event (m ∷ rounds) (inl h) = rw (is_preemption-IsAnnouncement m h) refl
wait_preemption_state-event (m ∷ rounds) (inr h) = elim (Bool-cases (is_preemption m)) [
  | inl now ↦ rw now refl
  | inr later ↦ rw later (wait_preemption_state-event rounds h)
]

perform-preempted : (a : Action) (s : State) → s.preempted ≡ true → (perform a s).preempted ≡ true
unfolding perform
perform-preempted write_preempted s h = refl
perform-preempted _ s h = h

perform_all-preempted :
    (actions : List Action) (s : State)
    → s.preempted ≡ true
    → (perform_all actions s).preempted ≡ true
unfolding perform_all
perform_all-preempted [] s h = h
perform_all-preempted (a ∷ rest) s h =
    perform_all-preempted rest (perform a s) (perform-preempted a s h)

Contains-preempted :
    (actions : List Action) (s : State)
    → Contains write_preempted actions
    → (perform_all actions s).preempted ≡ true
unfolding perform_all
Contains-preempted [] s h = absurd h
Contains-preempted (a ∷ rest) s (inl e) =
    perform_all-preempted rest (perform a s) (rw (← e) (unfold perform in refl))
Contains-preempted (a ∷ rest) s (inr h) = Contains-preempted rest (perform a s) h

preempted-readiness : (s : State) → s.preempted ≡ true → readiness s ≡ false
unfolding readiness is_preempted
preempted-readiness s h = rw h refl

-- If some round of the metadata server announces the preemption, then after the reaction of
-- `PreemptionChecker` the answer of `Readiness` is false, however the actions of other goroutines
-- are interleaved with it, and it stays so.
pub preemption_is_final :
    (rounds : List Metadata) (c : CancelFunc) (others actions later : List Action) (s : State)
    → SomeAnnouncement rounds
    → Interleaves (preemption_checker c (wait_preemption_state rounds).1) others actions
    → readiness (perform_all later (perform_all actions s)) ≡ false
unfolding preemption_checker
preemption_is_final rounds c others actions later s h i =
    let event : (wait_preemption_state rounds).1 ≡ true = wait_preemption_state-event rounds h in
    let writes : Contains write_preempted (preemption_checker c (wait_preemption_state rounds).1) =
      rw (preemption_checker, event) (inl refl) in
    preempted-readiness (perform_all later (perform_all actions s)) (
      perform_all-preempted later (perform_all actions s)
        (Contains-preempted actions s (Contains-Interleaves write_preempted i writes)))
