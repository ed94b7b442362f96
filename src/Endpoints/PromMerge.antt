-- ===== src/Endpoints/PromMerge.antt =====
-- /prommerge: `PromMergeHandler` of pkg/process/health.go. The package prommerge is an argument.
use mathlib.Core.List.{Memᴰ}
use process_wrapper.Prelude.{
  ℕ, suc, ◌≡◌, ◌≢◌, refl, ap, ◌∙◌, Bool, List, [], ◌∷◌, Str, All, select, Bool-cases, inl, inr,
  is_empty,
}
use process_wrapper.Prelude.Int.{pos}
use process_wrapper.Command.{Command}
use process_wrapper.State.{State, PromTarget, new_state, get_ready_prom_targets}
use process_wrapper.Action.{Action, perform_all}
use process_wrapper.Schedule.{schedule, prom_targets}
use process_wrapper.Schedule.Names.{IsPlain, IsDistinct, names}
use process_wrapper.Schedule.Targets.{ReportsOnly, replicated_target_never_ready}
use process_wrapper.Http.{Response, no_response, write_header, write}

-- What the handler uses of the package: the targets that `NewPromData` and `CollectTargets` leave, and
-- the text of `ToString`. (An error of `CollectTargets` is only logged.)
pub record PromMerge : Type 0 where
  pub collect : List PromTarget → List PromTarget
  pub to_string : List PromTarget → Str

abbrev answer_collected : PromMerge → List PromTarget → Response
answer_collected merge [] = write_header 204 no_response
answer_collected merge (t ∷ ts) = write (merge.to_string (t ∷ ts)) no_response

unfoldable pub prom_merge_handler : PromMerge → List PromTarget → State → Response
unfolding write_header write get_ready_prom_targets
prom_merge_handler merge targets s =
    answer_collected merge (merge.collect (get_ready_prom_targets targets s))

-- A target that a command of the configuration asks for.
abbrev IsAsked : List Command → PromTarget → Type 0
IsAsked cs t = (c : Command) × Memᴰ c cs × (t.name ≡ c.name)

All-map :
    (cs : List Command) (d : Command) (ts : List PromTarget)
    → All (IsAsked cs) ts
    → All (IsAsked (d ∷ cs)) ts
All-map cs d [] h = tt
All-map cs d (t ∷ ts) ((c, m, e), h) = ((c, Memᴰ.tail m, e), All-map cs d ts h)

prom_targets-IsAsked : (cs : List Command) → All (IsAsked cs) (prom_targets cs)
unfolding prom_targets
prom_targets-IsAsked [] = tt
prom_targets-IsAsked (c ∷ cs) =
    let rest = All-map cs c (prom_targets cs) (prom_targets-IsAsked cs) in
    elim (Bool-cases (is_empty c.prom_target)) [
      | inl no_target ↦ rw no_target rest
      | inr target ↦ rw target ((c, Memᴰ.head refl, refl), rest)
    ]

All-select :
    (P : PromTarget → Type 0) (p : PromTarget → Bool) (ts : List PromTarget)
    → All P ts
    → All P (select p ts)
All-select P p [] h = tt
All-select P p (t ∷ ts) h = elim (Bool-cases (p t)) [
  | inl kept ↦ rw kept (h.0, All-select P p ts h.1)
  | inr dropped ↦ rw dropped (All-select P p ts h.1)
]

none_ready :
    (cs : List Command) (ready : List PromTarget)
    → All (IsAsked cs) ready
    → ((c : Command) → Memᴰ c cs → All (λ (t : PromTarget). t.name ≢ c.name) ready)
    → ready ≡ []
none_ready cs [] asked never = refl
none_ready cs (t ∷ ready) ((c, m, e), asked) never = absurd ((never c m).0 e)

-- A command with replicas.
abbrev pub IsReplicated : Command → Type 0
IsReplicated c = (n : ℕ) × (c.replicas ≡ pos (suc n))

-- If every command has replicas, then /prommerge always answers 204, without metrics, whatever
-- statuses are reported for the scheduled processes, in whatever order, if the configured names are
-- distinct and hold no underscore, and the package collects no target where it is given none.
pub prom_merge-replicated :
    (merge : PromMerge) (skip : List Str) (cs : List Command) (actions : List Action) (file : Str)
    (drain : Bool)
    → merge.collect [] ≡ []
    → ((c : Command) → Memᴰ c cs → IsReplicated c)
    → IsDistinct (names cs)
    → All IsPlain (names cs)
    → All (ReportsOnly (names (schedule skip cs))) actions
    → prom_merge_handler merge (prom_targets cs) (perform_all actions (new_state file drain))
      ≡ write_header 204 no_response
unfolding prom_merge_handler
prom_merge-replicated merge skip cs actions file drain law replicated d p h =
    let s = perform_all actions (new_state file drain) in
    let ready = get_ready_prom_targets (prom_targets cs) s in
    let empty : ready ≡ [] =
      none_ready cs ready
        (unfold get_ready_prom_targets in
          All-select (IsAsked cs) _ (prom_targets cs) (prom_targets-IsAsked cs))
        (λ c m.
          replicated_target_never_ready skip cs c (replicated c m).0 actions file drain m
            (replicated c m).1 d p h) in
    ap (λ ts. answer_collected merge (merge.collect ts)) empty ∙ ap (answer_collected merge) law
