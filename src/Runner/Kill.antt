-- ===== src/Runner/Kill.antt =====
-- A process that `ProbeRunner` kills has been marked as killed before (pkg/process/process.go), by
-- which `Run` knows that it is to be started again.
use mathlib.Core.List.{append-nil}
use process_wrapper.Prelude.{
  Option-cases, ℕ, zero, suc, ◌≡◌, Bool, true, false, List, [], ◌∷◌, ◌++◌, Option, none, some, Str,
  str_eq, str_eq_refl, if◌then◌else◌, arith, All, All-append, Bool-cases, inl, inr,
}
use process_wrapper.Command.{probes_undefined}
use process_wrapper.Hooks.{run_hook, HookWorld}
use process_wrapper.State.{is_shutdown}
use process_wrapper.Probes.{run_probes, configured}
use process_wrapper.Action.{
  failed_probe, success_probe, count_label, write_state, Action, write_killed, send, sigkill,
}
use process_wrapper.Runner.{
  pos, after, leb_ℤ, after_hook, Setup, Vars, Round, Ended, stops, continues, kill_actions, judge,
  conclude, all_passed, round, probe_runner, and_then,
}

-- Every SIGKILL in the list comes at a moment when the kill flag of the process is set, if `flag` is
-- its value before the list.
abbrev pub IsAnnounced : Str → Bool → List Action → Type 0
IsAnnounced name flag [] = Unit
IsAnnounced name flag (write_killed n b ∷ rest) =
    IsAnnounced name (if str_eq n name then b else flag) rest
IsAnnounced name flag (send pid sigkill ∷ rest) = (flag ≡ true) × IsAnnounced name flag rest
IsAnnounced name flag (_ ∷ rest) = IsAnnounced name flag rest

-- Neither a signal nor a write of a kill flag.
abbrev IsPeaceful : Action → Type 0
IsPeaceful (write_killed n b) = ⊥
IsPeaceful (send pid g) = ⊥
IsPeaceful _ = Unit

peaceful-IsAnnounced :
    (name : Str) (flag : Bool) (xs ys : List Action)
    → All IsPeaceful xs
    → IsAnnounced name flag ys
    → IsAnnounced name flag (xs ++ ys)
peaceful-IsAnnounced name flag [] ys p h = h
peaceful-IsAnnounced name flag (write_killed n b ∷ xs) ys p h = absurd p.0
peaceful-IsAnnounced name flag (send pid g ∷ xs) ys p h = absurd p.0
peaceful-IsAnnounced name flag (_ ∷ xs) ys p h = peaceful-IsAnnounced name flag xs ys p.1 h

kill_actions-IsAnnounced : (u : Setup) → IsAnnounced u.target.name false (kill_actions u)
unfolding kill_actions
kill_actions-IsAnnounced u = ground (arith, str_eq_refl u.target.name)

-- A part of the program that goes on is peaceful; one that ends may kill.
abbrev IsSafe {ℓ} : {A : Type ℓ} → Str → List Action → Option A → Type 0
IsSafe name actions none = IsAnnounced name false actions
IsSafe name actions (some a) = All IsPeaceful actions

before_rest-IsSafe :
    {A : Type 0} (name : Str) (xs ys : List Action) (o : Option A)
    → All IsPeaceful xs
    → IsSafe name ys o
    → IsSafe name (xs ++ ys) o
before_rest-IsSafe name xs ys none p h = peaceful-IsAnnounced name false xs ys p h
before_rest-IsSafe name xs ys (some a) p h = All-append IsPeaceful xs ys p h

judge-IsSafe :
    (u : Setup) (unhealthy failures : ℕ) (statuses : List Bool)
    → let j = judge u unhealthy failures statuses in IsSafe u.target.name j.0 j.1
unfolding judge
judge-IsSafe u n f [] = tt
judge-IsSafe u n f (true ∷ statuses) =
    before_rest-IsSafe u.target.name (count_label success_probe ∷ []) (judge u n f statuses).0
      (judge u n f statuses).1 (tt, tt) (judge-IsSafe u n f statuses)
judge-IsSafe u n f (false ∷ statuses) =
    elim (Bool-cases (leb_ℤ u.probe.failure_threshold (pos (suc f)))) [
      | inl over ↦ rw over (kill_actions-IsAnnounced u)
      | inr under ↦ rw under (
          before_rest-IsSafe u.target.name
            (count_label failed_probe ∷ write_state u.target.name false ∷ [])
            (judge u (suc n) (suc f) statuses).0 (judge u (suc n) (suc f) statuses).1 (tt, (tt, tt))
            (judge-IsSafe u (suc n) (suc f) statuses))
    ]

-- The same for a round.
abbrev IsSafeEnd : Str → Ended → Type 0
IsSafeEnd name (actions, stops) = IsAnnounced name false actions
IsSafeEnd name (actions, continues v) = All IsPeaceful actions

after-IsSafeEnd :
    (name : Str) (xs : List Action) (e : Ended)
    → All IsPeaceful xs
    → IsSafeEnd name e
    → IsSafeEnd name (after xs e)
after-IsSafeEnd name xs (actions, stops) p h = peaceful-IsAnnounced name false xs actions p h
after-IsSafeEnd name xs (actions, continues v) p h = All-append IsPeaceful xs actions p h

after_hook-IsSafeEnd :
    (u : Setup) (v : Vars) (passed : Bool) (actions : List Action)
    → All IsPeaceful actions
    → IsSafeEnd u.target.name (after_hook u v (passed, actions))
unfolding after_hook
after_hook-IsSafeEnd u v true actions p =
    All-append IsPeaceful (actions ++ write_state u.target.name true ∷ []) _
      (All-append IsPeaceful actions _ p (tt, tt)) (tt, tt)
after_hook-IsSafeEnd u v false actions p =
    peaceful-IsAnnounced u.target.name false actions _ p (ground (arith, str_eq_refl u.target.name))

all_passed-IsSafeEnd :
    (w : HookWorld) (u : Setup) (v : Vars) → IsSafeEnd u.target.name (all_passed w u v)
unfolding all_passed
all_passed-IsSafeEnd w u v = elim (Option-cases u.post_start) [
  | inl bare ↦ rw bare (tt, (tt, tt))
  | inr (hook, has) ↦ elim (Bool-cases v.hook_executed) [
    | inl executed ↦ rw (has, executed) (tt, tt)
    | inr fresh ↦
        let o = run_hook w u.target.envs (some hook) in
        rw (has, fresh) (after_hook-IsSafeEnd u v o.0 (write_state u.target.name o.0 ∷ []) (tt, tt))
  ]
]

conclude-IsSafeEnd :
    (w : HookWorld) (u : Setup) (v : Vars) (j : List Action × Option (ℕ × ℕ))
    → IsSafe u.target.name j.0 j.1
    → IsSafeEnd u.target.name (conclude w u v j)
unfolding conclude
conclude-IsSafeEnd w u v (actions, none) h = h
conclude-IsSafeEnd w u v (actions, some (zero, f)) h =
    after-IsSafeEnd u.target.name actions (all_passed w u (record v { failures = f })) h
      (all_passed-IsSafeEnd w u (record v { failures = f }))
conclude-IsSafeEnd w u v (actions, some (suc n, f)) h =
    All-append IsPeaceful actions _ h (tt, (tt, tt))

round-IsSafeEnd :
    (u : Setup) (v : Vars) (r : Round)
    → probes_undefined u.probe ≡ false
    → IsSafeEnd u.target.name (round u v r)
unfolding round
round-IsSafeEnd u v r p = elim (Bool-cases r.done) [
  | inl done ↦ rw done tt
  | inr live ↦ elim (Bool-cases (is_shutdown r.start)) [
    | inl down ↦ rw (live, down) tt
    | inr up ↦
        let (statuses, handles) =
          run_probes r.world r.state u.target 0 (configured u.probe) v.handles in
        rw (live, up, p)
          (conclude-IsSafeEnd r.hook u (record v { handles = handles })
            (judge u 0 v.failures statuses) (judge-IsSafe u 0 v.failures statuses))
  ]
]

and_then-IsSafeEnd :
    (name : Str) (next : Vars → Ended) (e : Ended)
    → IsSafeEnd name e
    → ((v : Vars) → IsSafeEnd name (next v))
    → IsSafeEnd name (and_then next e)
and_then-IsSafeEnd name next (actions, stops) h n = h
and_then-IsSafeEnd name next (actions, continues v) h n =
    after-IsSafeEnd name actions (next v) h (n v)

probe_runner-IsSafeEnd :
    (u : Setup) (v : Vars) (rounds : List Round)
    → probes_undefined u.probe ≡ false
    → IsSafeEnd u.target.name (probe_runner u v rounds)
unfolding probe_runner
probe_runner-IsSafeEnd u v [] p = tt
probe_runner-IsSafeEnd u v (r ∷ rounds) p =
    and_then-IsSafeEnd u.target.name (λ v'. probe_runner u v' rounds) (round u v r)
      (round-IsSafeEnd u v r p) (λ v'. probe_runner-IsSafeEnd u v' rounds p)

IsSafeEnd-IsAnnounced : (name : Str) (e : Ended) → IsSafeEnd name e → IsAnnounced name false e.0
IsSafeEnd-IsAnnounced name (actions, stops) h = h
IsSafeEnd-IsAnnounced name (actions, continues v) h =
    rw (← append-nil actions) (peaceful-IsAnnounced name false actions [] h tt)

-- In whatever rounds it meets, the health checker of a command with a probe sets the kill flag of the
-- process before it sends SIGKILL, also if the flag was not set when it began.
pub probe_runner-IsAnnounced :
    (u : Setup) (v : Vars) (rounds : List Round)
    → probes_undefined u.probe ≡ false
    → IsAnnounced u.target.name false (probe_runner u v rounds).0
probe_runner-IsAnnounced u v rounds p =
    IsSafeEnd-IsAnnounced u.target.name (probe_runner u v rounds)
      (probe_runner-IsSafeEnd u v rounds p)
