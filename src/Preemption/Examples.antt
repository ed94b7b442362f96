-- ===== src/Preemption/Examples.antt =====
-- Tests of the check for preemption.
use process_wrapper.Prelude.{◌≡◌, refl, inl, inr, true, false, List, [], ◌∷◌, codes, arith, str_eq}
use process_wrapper.State.{readiness}
use process_wrapper.Action.{Action, write_state, write_preempted, cancel, perform_all}
use process_wrapper.Signals.Termination.{Interleaves, none_left, first, second}
use process_wrapper.Preemption.{
  some, Metadata, wait_preemption_state, preemption_checker, is_preemption, status_of,
}
use process_wrapper.Preemption.Final.{preemption_is_final}
use process_wrapper.Preemption.Requests.{Envoy, disabled, drained, drain_envoy_listeners}
use process_wrapper.Sample.{web, fresh}

abbrev calm : Metadata
calm = record {
  built = true;
  sent = true;
  read_ok = true;
  close_ok = true;
  code = 200;
  body = codes "FALSE";
}

abbrev rounds : List Metadata
rounds = record calm { sent = false } ∷ calm ∷ record calm { body = codes "TRUE" } ∷ []

abbrev actions : List Action
actions = write_preempted ∷ write_state web true ∷ cancel 4 ∷ []

interleaved :
    Interleaves
      (preemption_checker 4 (wait_preemption_state rounds).1)
      (write_state web true ∷ [])
      actions
unfolding preemption_checker wait_preemption_state is_preemption status_of str_eq
interleaved = first (second (first none_left))

preemption_is_final_example :
    readiness (perform_all (write_state web true ∷ []) (perform_all actions fresh)) ≡ false
preemption_is_final_example =
    preemption_is_final rounds 4 (write_state web true ∷ []) actions (write_state web true ∷ [])
      fresh (inr (inr (inl (refl, refl, refl, refl, omega arith, refl)))) interleaved

-- Without the flag envoy is not asked; with it, at the default address.
abbrev envoy : Envoy
envoy = record { valid = λ url. true; post = λ url. some (some (codes "OK")) }

not_drained : drain_envoy_listeners envoy (λ name. []) false ≡ ([], disabled)
unfolding drain_envoy_listeners
not_drained = refl

is_drained :
    drain_envoy_listeners envoy (λ name. []) true
    ≡ (codes "http://localhost:15000/drain_listeners" ∷ [], drained (codes "OK"))
unfolding drain_envoy_listeners
is_drained = refl
