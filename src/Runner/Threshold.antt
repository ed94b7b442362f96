-- ===== src/Runner/Threshold.antt =====
-- When `ProbeRunner` kills the process (pkg/process/process.go).
use native.Mathlib.Nat.{zero-add}
use process_wrapper.Prelude.{
  ℕ, zero, suc, ◌+◌, ◌≡◌, refl, ap, ◌∙◌, Bool, true, false, not, ◌&&◌, List, [], ◌∷◌, Option, none,
  some, if◌then◌else◌, arith, All, count, ltb, ◌==◌,
}
use process_wrapper.Prelude.Int.{ℤ, pos, leb_ℤ}
use process_wrapper.Command.{probes_undefined}
use process_wrapper.Outside.{Handles}
use process_wrapper.Probes.{run_probes, configured}
use process_wrapper.Hooks.{HookWorld}
use process_wrapper.State.{is_shutdown}
use process_wrapper.Runner.{
  and_then, Ended, Action, Setup, Vars, Round, Verdict, stops, continues, judge, settle, conclude,
  round, probe_runner,
}

-- The number of failed probes.
abbrev pub fails : List Bool → ℕ
fails = count not

-- The process is killed by the loop over the statuses exactly when a probe failed and the failures
-- counted so far, those of this round included, reach the threshold; else the loop adds the failed
-- probes to both of its counts.
pub judge_counts :
    (u : Setup) (unhealthy failures : ℕ) (statuses : List Bool)
    → (judge u unhealthy failures statuses).1 ≡ (
        if ltb 0 (fails statuses)
          && leb_ℤ u.probe.failure_threshold (pos (failures + fails statuses))
        then none
        else some (unhealthy + fails statuses, failures + fails statuses))
unfolding judge
judge_counts u unhealthy failures [] = ground arith
judge_counts u unhealthy failures (true ∷ statuses) =
    ground (arith, judge_counts u unhealthy failures statuses)
judge_counts u unhealthy failures (false ∷ statuses) =
    ground (arith, judge_counts u (suc unhealthy) (suc failures) statuses)

-- How a round without a post-start hook ends, from the counts of the loop.
abbrev ends_with : Vars → Option (ℕ × ℕ) → Verdict
ends_with v none = stops
ends_with v (some (zero, failures)) = continues (record v { failures = 0 })
ends_with v (some (suc unhealthy, failures)) = continues (record v { failures = failures })

conclude-ends_with :
    (w : HookWorld) (u : Setup) (v : Vars) (j : List Action × Option (ℕ × ℕ))
    → u.post_start ≡ none
    → (conclude w u v j).1 ≡ ends_with v j.1
unfolding conclude
conclude-ends_with w u v (actions, none) h = refl
conclude-ends_with w u v (actions, some (zero, f)) h = rw h
conclude-ends_with w u v (actions, some (suc n, f)) h = refl

ends_with-counts :
    (v : Vars) (threshold : ℤ) (n sum : ℕ)
    → ends_with v (if ltb 0 n && leb_ℤ threshold (pos sum) then none else some (0 + n, sum)) ≡ (
        if n == 0
        then continues (record v { failures = 0 })
        else if leb_ℤ threshold (pos sum)
        then stops
        else continues (record v { failures = sum }))
ends_with-counts v threshold zero sum = refl
ends_with-counts v threshold (suc n) sum = rw zero-add (ground arith)

-- A round of statuses, for a command with probes and without a post-start hook.
settle-verdict :
    (w : HookWorld) (u : Setup) (v : Vars) (statuses : List Bool)
    → u.post_start ≡ none
    → probes_undefined u.probe ≡ false
    → (settle w u v statuses).1 ≡ (
        if fails statuses == 0
        then continues (record v { failures = 0 })
        else if leb_ℤ u.probe.failure_threshold (pos (v.failures + fails statuses))
        then stops
        else continues (record v { failures = v.failures + fails statuses }))
unfolding settle
settle-verdict w u v statuses h p =
    rw (p, conclude-ends_with w u v (judge u 0 v.failures statuses) h, judge_counts)
      (ends_with-counts v u.probe.failure_threshold (fails statuses) (v.failures + fails statuses))

-- The specification: failed probes are added up over the rounds, a round without a failed probe
-- sets the sum to 0, and the process is killed in a round that has a failed probe and brings the sum
-- to the threshold.
abbrev pub kills : ℤ → ℕ → List (List Bool) → Bool
kills threshold failures [] = false
kills threshold failures (statuses ∷ rounds) =
    let clean = kills threshold 0 rounds in
    let more = kills threshold (failures + fails statuses) rounds in
    if fails statuses == 0
    then clean
    else if leb_ℤ threshold (pos (failures + fails statuses))
    then true
    else more

-- What the probes answer in the rounds, their handles passed on from round to round.
abbrev pub observed : Setup → Handles → List Round → List (List Bool)
observed u h [] = []
observed u h (r ∷ rounds) =
    let (statuses, h') = run_probes r.world r.state u.target 0 (configured u.probe) h in
    statuses ∷ observed u h' rounds

-- The health checker is neither cancelled nor in shutdown.
abbrev pub IsLive : Round → Type 0
IsLive r = (r.done ≡ false) × (is_shutdown r.start ≡ false)

abbrev pub is_stopped : Verdict → Bool
is_stopped stops = true
is_stopped (continues v) = false

pub round-settle :
    (u : Setup) (v : Vars) (r : Round)
    → IsLive r
    → let (statuses, handles) =
        run_probes r.world r.state u.target 0 (configured u.probe) v.handles in
      round u v r ≡ settle r.hook u (record v { handles = handles }) statuses
unfolding round
round-settle u v r (live, up) = rw (live, up)

-- Whether the rounds after a verdict stop.
abbrev stop_after : (Vars → Ended) → Verdict → Bool
stop_after next stops = true
stop_after next (continues v) = is_stopped (next v).1

and_then-stop_after :
    (next : Vars → Ended) (e : Ended) → is_stopped (and_then next e).1 ≡ stop_after next e.1
and_then-stop_after next (actions, stops) = refl
and_then-stop_after next (actions, continues v) = refl

-- For a command with probes and without a post-start hook, as long as the health checker is neither
-- cancelled nor in shutdown: `ProbeRunner` kills the process in the rounds that it meets exactly
-- when the answers of the probes in these rounds meet the specification `kills`.
pub probe_runner-kills :
    (u : Setup) (v : Vars) (rounds : List Round)
    → u.post_start ≡ none
    → probes_undefined u.probe ≡ false
    → All IsLive rounds
    → is_stopped (probe_runner u v rounds).1
      ≡ kills u.probe.failure_threshold v.failures (observed u v.handles rounds)
unfolding probe_runner
probe_runner-kills u v [] h p l = refl
probe_runner-kills u v (r ∷ rounds) h p l =
    let next = λ (v' : Vars). probe_runner u v' rounds in
    let (statuses, handles) =
      run_probes r.world r.state u.target 0 (configured u.probe) v.handles in
    let v' = record v { handles = handles } in
    let sum = v.failures + fails statuses in
    and_then-stop_after next (round u v r)
    ∙ ap (λ e. stop_after next e.1) (round-settle u v r l.0)
    ∙ ap (stop_after next) (settle-verdict r.hook u v' statuses h p)
    ∙ ground (
      arith,
      probe_runner-kills u (record v' { failures = 0 }) rounds h p l.1,
      probe_runner-kills u (record v' { failures = sum }) rounds h p l.1,
    )
