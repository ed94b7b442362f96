-- ===== src/Stats/Limit.antt =====
-- What `GetStats` does to a process out of memory (pkg/process/process_stats.go).
use mathlib.Core.List.{append_assoc}
use process_wrapper.Prelude.{
  ℕ, suc, ◌≡◌, refl, Bool, true, List, [], ◌∷◌, ◌++◌, str_eq_refl, leb, Bool-cases, Option-cases,
  inl, inr, ap,
}
use process_wrapper.Prelude.Float.{Float}
use process_wrapper.Action.{Action, sleep}
use process_wrapper.Clock.{seconds}
use process_wrapper.Command.{Command}
use process_wrapper.Registry.{Update}
use process_wrapper.Registry.Accepted.{Prometheus}
use process_wrapper.Runner.Kill.{IsAnnounced}
use process_wrapper.Stats.{
  ProcStat, Measured, StatRound, Step, act, updated, acts, make_updates, exceeds_limit, stat,
  usable, usage_updates, handle_memory_limit, collect, get_stats, new_proc_stats,
}

module _ {ℓ} {F : Type ℓ} where
  abbrev pub actions : List (Step F) → List Action
  actions [] = []
  actions (act a ∷ steps) = a ∷ actions steps
  actions (updated u ∷ steps) = actions steps

  pub actions-acts :
      (xs : List Action) (rest : List (Step F)) → actions (acts xs ++ rest) ≡ xs ++ actions rest
  actions-acts [] rest = refl
  actions-acts (a ∷ xs) rest = ap (λ ys. a ∷ ys) (actions-acts xs rest)

  pub actions-make_updates :
      (p : Prometheus F) (us : List (Update F)) (rest : List (Step F))
      → actions ((make_updates p us).0 ++ rest) ≡ actions rest
  unfolding make_updates
  actions-make_updates p [] rest = refl
  actions-make_updates p (u ∷ us) rest = elim (Bool-cases (p.panics u)) [
    | inl dies ↦ rw dies refl
    | inr lives ↦ rw lives (actions-make_updates p us rest)
  ]

  pub actions-made : (p : Prometheus F) (us : List (Update F)) → actions (make_updates p us).0 ≡ []
  unfolding make_updates
  actions-made p [] = refl
  actions-made p (u ∷ us) = elim (Bool-cases (p.panics u)) [
    | inl dies ↦ rw dies refl
    | inr lives ↦ rw lives (actions-made p us)
  ]

module _ {ℓ} {F : Type ℓ} ⦃f : Float F⦄ where
  handle_memory_limit-IsAnnounced :
      (c : Command) (pid : ℕ) (m : Measured F) (flag : Bool) (rest : List Action)
      → ((b : Bool) → IsAnnounced c.name b rest)
      → IsAnnounced c.name flag (handle_memory_limit c pid m ++ rest)
  unfolding handle_memory_limit
  handle_memory_limit-IsAnnounced c pid m flag rest h = elim (Bool-cases (exceeds_limit c m)) [
    | inl over ↦ rw (over, str_eq_refl) (refl, h true)
    | inr under ↦ rw under (h flag)
  ]

  limited-IsAnnounced :
      (c : Command) (pid : ℕ) (m : Measured F) (flag : Bool) (rest : List Action)
      → ((b : Bool) → IsAnnounced c.name b rest)
      → IsAnnounced c.name flag ((handle_memory_limit c pid m ++ sleep (seconds 10) ∷ []) ++ rest)
  limited-IsAnnounced c pid m flag rest h =
      rw append_assoc (handle_memory_limit-IsAnnounced c pid m flag (sleep (seconds 10) ∷ rest) h)

  collect-IsAnnounced :
      (p : Prometheus F) (c : Command) (pid failed : ℕ) (s : ProcStat F) (rounds : List StatRound)
      (flag : Bool)
      → IsAnnounced c.name flag (actions (collect p c pid failed s rounds).steps)
  unfolding collect
  collect-IsAnnounced p c pid failed s [] flag = tt
  collect-IsAnnounced p c pid failed s (r ∷ rounds) flag =
      let s' = (stat r.file s).1 in
      elim (Bool-cases r.done) [
        | inl done ↦ rw done tt
        | inr live ↦ elim (Option-cases (usable (stat r.file s).0)) [
          | inl bad ↦ elim (Bool-cases (leb 3 (suc failed))) [
            | inl enough ↦ rw (live, bad, enough) tt
            | inr few ↦
                rw (live, bad, few) (collect-IsAnnounced p c pid (suc failed) s' rounds flag)
          ]
          | inr (m, good) ↦ elim (Bool-cases (make_updates p (usage_updates c m)).1) [
            | inl survived ↦
                rw (live, good, survived, append_assoc, actions-make_updates, actions-acts)
                  (limited-IsAnnounced c pid m flag _ (collect-IsAnnounced p c pid 0 s' rounds))
            | inr dies ↦ rw (live, good, dies, actions-made) tt
          ]
        ]
      ]

  -- `GetStats` sets the kill flag of a process that is out of memory before it sends SIGKILL, in every
  -- round, also if the flag was reset in between.
  pub get_stats-IsAnnounced :
      (p : Prometheus F) (c : Command) (pid : ℕ) (rounds : List StatRound) (flag : Bool)
      → IsAnnounced c.name flag (actions (get_stats p c pid rounds).steps)
  unfolding get_stats
  get_stats-IsAnnounced p c pid rounds flag =
      collect-IsAnnounced p c pid 0 (new_proc_stats pid (f.of_nat 0) (f.of_nat 0)) rounds flag
