-- ===== src/Maps/Examples.antt =====
-- Tests of the maps without order.
use process_wrapper.Prelude.{
  ◌≡◌, ◌≢◌, refl, sym, ◌∙◌, inl, inr, true, false, List, [], ◌∷◌, Str, codes, str_eq, str_eq_iff,
  str_ne, arith, Bool-cases,
}
use process_wrapper.State.{readiness, liveness, is_preempted}
use process_wrapper.Action.{Action, write_state, perform_all}
use process_wrapper.Action.Invariant.{
  IsWellFormed, perform_all-IsWellFormed, new_state-IsWellFormed,
}
use process_wrapper.Signals.Termination.{none_left, first, second}
use process_wrapper.Endpoints.{create_readiness_file}
use process_wrapper.Maps.{statuses}
use process_wrapper.Maps.Reports.{AreSeparate, interleavings-statuses, same_statuses-tests}
use process_wrapper.Sample.{web, fresh}

abbrev api : Str
api = codes "api"

abbrev of_web : List Action
of_web = write_state web false ∷ write_state web true ∷ []

abbrev of_api : List Action
of_api = write_state api true ∷ []

abbrev web_first : List Action
web_first = write_state web false ∷ write_state web true ∷ write_state api true ∷ []

abbrev api_first : List Action
api_first = write_state api true ∷ write_state web false ∷ write_state web true ∷ []

api_ne : (name : Str) → web ≡ name → api ≢ name
api_ne name e f = str_ne web api (unfold str_eq in refl) (e ∙ sym f)

apart : AreSeparate of_web of_api
apart name = elim (Bool-cases (str_eq web name)) [
  | inl same ↦ inr (api_ne name ((str_eq_iff web name).0 same), tt)
  | inr other ↦
      inl (
        (λ e. ground (arith, str_eq_iff web name)),
        ((λ e. ground (arith, str_eq_iff web name)), tt),
      )
]

fresh-IsWellFormed : IsWellFormed fresh
fresh-IsWellFormed = new_state-IsWellFormed (codes "/tmp/started") false

interleavings-statuses_example :
    (statuses
        (perform_all web_first fresh)
        (perform_all-IsWellFormed web_first fresh fresh-IsWellFormed)
      ≡ statuses
          (perform_all api_first fresh)
          (perform_all-IsWellFormed api_first fresh fresh-IsWellFormed))
    × (liveness (perform_all web_first fresh) ≡ liveness (perform_all api_first fresh))
interleavings-statuses_example =
    interleavings-statuses of_web of_api web_first api_first fresh fresh-IsWellFormed apart
      (first (first (second none_left))) (second (first (first none_left)))

same_statuses-tests_example :
    let s = perform_all web_first fresh in
    let t = perform_all api_first fresh in
    (readiness s ≡ readiness t)
    × (liveness s ≡ liveness t)
    × (create_readiness_file ((s, true) ∷ []) ≡ create_readiness_file ((t, true) ∷ []))
same_statuses-tests_example =
    same_statuses-tests (perform_all web_first fresh) (perform_all api_first fresh)
      (perform_all-IsWellFormed web_first fresh fresh-IsWellFormed)
      (perform_all-IsWellFormed api_first fresh fresh-IsWellFormed) true []
      (interleavings-statuses of_web of_api web_first api_first fresh fresh-IsWellFormed apart
        (first (first (second none_left))) (second (first (first none_left)))).0
      (unfold is_preempted perform_all in refl)
