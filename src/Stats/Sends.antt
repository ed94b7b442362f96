-- ===== src/Stats/Sends.antt =====
-- What `GetStats` sends to a process over its memory limit (pkg/process/process_stats.go): SIGKILL. It
-- never requests a shutdown.
use process_wrapper.Prelude.{
  ℕ, suc, ◌≡◌, refl, Bool, true, false, ◌||◌, List, [], ◌∷◌, ◌++◌, Option, none, some, All,
  All-append, leb, Bool-cases, Option-cases, inl, inr,
}
use process_wrapper.Prelude.Float.{Float}
use process_wrapper.Clock.{seconds}
use process_wrapper.Action.{Action, send, sigkill, sleep}
use process_wrapper.Command.{Command}
use process_wrapper.Lifecycle.Restart.{IsQuiet}
use process_wrapper.Registry.Accepted.{Prometheus}
use process_wrapper.Signals.Termination.{Contains, Contains-append_left, Contains-append_right}
use process_wrapper.Stats.{
  ProcStat, Measured, StatRound, looping, make_updates, exceeds_limit, stat, usable, usage_updates,
  handle_memory_limit, collect, get_stats, new_proc_stats,
}
use process_wrapper.Stats.Limit.{actions, actions-acts, actions-make_updates, actions-made}
use mathlib.Core.List.{append_assoc}

module _ {ℓ} {F : Type ℓ} ⦃f : Float F⦄ where
  -- A measurement over the limit.
  abbrev pub is_over : Command → Option (Measured F) → Bool
  is_over c none = false
  is_over c (some m) = exceeds_limit c m

  abbrev pub over_limit : Command → ProcStat F → List StatRound → Bool
  over_limit c s [] = false
  over_limit c s (r ∷ rounds) =
      let (m?, s') = stat r.file s in is_over c (usable m?) || over_limit c s' rounds

  handle_memory_limit-sends :
      (c : Command) (pid : ℕ) (m : Measured F)
      → exceeds_limit c m ≡ true
      → Contains (send pid sigkill) (handle_memory_limit c pid m)
  unfolding handle_memory_limit
  handle_memory_limit-sends c pid m h = rw h (inr (inl refl))

  handle_memory_limit-IsQuiet :
      (c : Command) (pid : ℕ) (m : Measured F) → All IsQuiet (handle_memory_limit c pid m)
  unfolding handle_memory_limit
  handle_memory_limit-IsQuiet c pid m = elim (Bool-cases (exceeds_limit c m)) [
    | inl over ↦ rw over (tt, (tt, (tt, tt)))
    | inr under ↦ rw under tt
  ]

  -- What a round with a usable measurement does.
  abbrev limited : Command → ℕ → Measured F → List Action
  limited c pid m = handle_memory_limit c pid m ++ sleep (seconds 10) ∷ []

  limited-IsQuiet : (c : Command) (pid : ℕ) (m : Measured F) → All IsQuiet (limited c pid m)
  limited-IsQuiet c pid m =
      All-append IsQuiet (handle_memory_limit c pid m) (sleep (seconds 10) ∷ [])
        (handle_memory_limit-IsQuiet c pid m) (tt, tt)

  collect-IsQuiet :
      (p : Prometheus F) (c : Command) (pid n : ℕ) (s : ProcStat F) (rounds : List StatRound)
      → All IsQuiet (actions (collect p c pid n s rounds).steps)
  unfolding collect
  collect-IsQuiet p c pid n s [] = tt
  collect-IsQuiet p c pid n s (r ∷ rounds) =
      let s' = (stat r.file s).1 in
      elim (Bool-cases r.done) [
        | inl done ↦ rw done tt
        | inr live ↦ elim (Option-cases (usable (stat r.file s).0)) [
          | inl bad ↦ elim (Bool-cases (leb 3 (suc n))) [
            | inl enough ↦ rw (live, bad, enough) tt
            | inr few ↦ rw (live, bad, few) (tt, collect-IsQuiet p c pid (suc n) s' rounds)
          ]
          | inr (m, good) ↦ elim (Bool-cases (make_updates p (usage_updates c m)).1) [
            | inl survived ↦
                rw (live, good, survived, append_assoc, actions-make_updates, actions-acts)
                  (All-append IsQuiet (limited c pid m) _ (limited-IsQuiet c pid m)
                    (collect-IsQuiet p c pid 0 s' rounds))
            | inr dies ↦ rw (live, good, dies, actions-made) tt
          ]
        ]
      ]

  collect-sends :
      (p : Prometheus F) (c : Command) (pid n : ℕ) (s : ProcStat F) (rounds : List StatRound)
      → (collect p c pid n s rounds).exit ≡ looping
      → over_limit c s rounds ≡ true
      → Contains (send pid sigkill) (actions (collect p c pid n s rounds).steps)
  unfolding collect
  collect-sends p c pid n s [] e h = absurd cc
  collect-sends p c pid n s (r ∷ rounds) e h =
      let s' = (stat r.file s).1 in
      elim (Bool-cases r.done) [
        | inl done ↦ absurd (let ends = rw done at e in cc)
        | inr live ↦ elim (Option-cases (usable (stat r.file s).0)) [
          | inl bad ↦ elim (Bool-cases (leb 3 (suc n))) [
            | inl enough ↦ absurd (let ends = rw (live, bad, enough) at e in cc)
            | inr few ↦
                rw (live, bad, few)
                  (inr (
                    collect-sends p c pid (suc n) s' rounds (rw (live, bad, few) at e)
                      (rw bad at h)))
          ]
          | inr (m, good) ↦ elim (Bool-cases (make_updates p (usage_updates c m)).1) [
            | inl survived ↦
                rw (live, good, survived, append_assoc, actions-make_updates, actions-acts)
                  (elim (Bool-cases (exceeds_limit c m)) [
                    | inl over ↦ Contains-append_left _ (limited c pid m) _ (
                        Contains-append_left _ (handle_memory_limit c pid m) _
                          (handle_memory_limit-sends c pid m over))
                    | inr under ↦ Contains-append_right _ (limited c pid m) _ (
                        collect-sends p c pid 0 s' rounds (rw (live, good, survived) at e)
                          (rw (good, under) at h))
                  ])
            | inr dies ↦ absurd (let ends = rw (live, good, dies) at e in cc)
          ]
        ]
      ]

  pub get_stats-IsQuiet :
      (p : Prometheus F) (c : Command) (pid : ℕ) (rounds : List StatRound)
      → All IsQuiet (actions (get_stats p c pid rounds).steps)
  unfolding get_stats
  get_stats-IsQuiet p c pid rounds =
      collect-IsQuiet p c pid 0 (new_proc_stats pid (f.of_nat 0) (f.of_nat 0)) rounds

  -- A process with a usable measurement over its limit is sent SIGKILL, if `GetStats` has not ended.
  pub get_stats-sends :
      (p : Prometheus F) (c : Command) (pid : ℕ) (rounds : List StatRound)
      → (get_stats p c pid rounds).exit ≡ looping
      → over_limit c (new_proc_stats pid (f.of_nat 0) (f.of_nat 0)) rounds ≡ true
      → Contains (send pid sigkill) (actions (get_stats p c pid rounds).steps)
  unfolding get_stats
  get_stats-sends p c pid rounds =
      collect-sends p c pid 0 (new_proc_stats pid (f.of_nat 0) (f.of_nat 0)) rounds
