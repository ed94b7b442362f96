-- ===== src/Action/Reports.antt =====
-- The readiness table under an interleaving of actions: what was reported last counts.
use process_wrapper.Prelude.{
  ap, ◌∙◌, ◌≡◌, refl, Bool, List, [], ◌∷◌, Option, none, some, Str, str_eq, if◌then◌else◌,
}
use process_wrapper.Prelude.Dict.{lookup, lookup-insert, lookup-delete}
use process_wrapper.State.{State}
use process_wrapper.Action.{Action, write_state, drop_state, perform, perform_all}

-- The status of a process after the actions, if `before` was its status before them.
abbrev pub last_report : Str → List Action → Option Bool → Option Bool
last_report name [] before = before
last_report name (write_state n b ∷ rest) before =
    last_report name rest (if str_eq n name then some b else before)
last_report name (drop_state n ∷ rest) before =
    last_report name rest (if str_eq n name then none else before)
last_report name (_ ∷ rest) before = last_report name rest before

-- The table holds for each process what the last `SetState` or `RemoveState` on it left,
-- independent of all other actions and of those on other processes.
pub status-last_report :
    (name : Str) (actions : List Action) (s : State)
    → lookup name (perform_all actions s).status_map
      ≡ last_report name actions (lookup name s.status_map)
unfolding perform_all
status-last_report name [] s = refl
status-last_report name (write_state n b ∷ rest) s =
    status-last_report name rest (perform (write_state n b) s)
    ∙ ap (last_report name rest) (lookup-insert n name b s.status_map)
status-last_report name (drop_state n ∷ rest) s =
    status-last_report name rest (perform (drop_state n) s)
    ∙ ap (last_report name rest) (lookup-delete n name s.status_map)
status-last_report name (a ∷ rest) s = status-last_report name rest (perform a s)
