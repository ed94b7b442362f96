-- ===== src/Probes/Verdicts.antt =====
-- What the verdicts of single probes rest on (pkg/process/probe_*.go).
use mathlib.Core.List.{Memᴰ}
use process_wrapper.Prelude.{
  str_eq_iff, str_eq, ℕ, ◌-◌, ◌≤◌, ◌≡◌, refl, sym, ◌↔◌, true, false, List, [], ◌∷◌, none, some, Str,
  arith, Bool-cases, inl, inr, leb, All, slice_contains, if◌then◌else◌,
}
use process_wrapper.Prelude.Int.{pos, is_zero}
use process_wrapper.Prelude.Dict.{lookup-insert_self, Dict, lookup, lookup_or}
use process_wrapper.Clock.{Time, sub, max_duration, seconds}
use process_wrapper.State.{State, get_heart_beat, set_heart_beat, floating_pid_history}
use process_wrapper.State.Restarts.{Restart, record_restarts, num_of_restarts-le}
use process_wrapper.Command.{Probe, probes_undefined, FloatingPid, HeartBeat, AmqpProbe}
use process_wrapper.Outside.{World, Handles}
use process_wrapper.Probes.{
  amqp_dsn, configured, run_floating_pid, run_heart_beat, run_queries, run_amqp, rows, sql_query,
  contains_all,
}

-- A command has no probe to run exactly when `ProbesUndefined` says so.
pub probes_undefined_iff : (p : Probe) → (probes_undefined p ≡ true) ↔ (configured p ≡ [])
unfolding probes_undefined configured
probes_undefined_iff p = ((λ h. ground arith), λ h. ground arith)

-- A floating-pid probe with a threshold of ten or more never fails, however often and however fast
-- the process has been restarted: no more than ten starts are remembered.
pub run_floating_pid-large_threshold :
    (w : World) (rs : List Restart) (name : Str) (s : State) (p : FloatingPid) (n : ℕ)
    → lookup name s.floating_pid ≡ none
    → p.threshold ≡ pos n
    → floating_pid_history ≤ n
    → run_floating_pid w (record_restarts rs s) name p ≡ true
unfolding run_floating_pid
run_floating_pid-large_threshold w rs name s p n fresh e h =
    let period = if is_zero p.period then seconds 10 else p.period in
    ground (arith, num_of_restarts-le rs name s w.clock period fresh)

get_heart_beat-set_heart_beat :
    (name : Str) (t : Time) (s : State) → get_heart_beat name (set_heart_beat name t s) ≡ t
unfolding get_heart_beat set_heart_beat lookup_or
get_heart_beat-set_heart_beat name t s = rw (lookup-insert_self name t s.heart_beat, lookup_or)

sub-eq_pos : (now t : Time) → t ≤ now → now - t ≤ max_duration → sub now t ≡ pos (now - t)
unfolding sub
sub-eq_pos now t h k = ground arith

-- A heartbeat probe succeeds exactly while the last heartbeat is no older than the period: right after
-- a beat at `t`, at a clock that has not gone back and within the range of a duration.
pub run_heart_beat-set_heart_beat :
    (w : World) (name : Str) (t : Time) (s : State) (p : HeartBeat) (n : ℕ)
    → p.period ≡ pos n
    → t ≤ w.clock 0
    → w.clock 0 - t ≤ max_duration
    → run_heart_beat w (set_heart_beat name t s) name p ≡ leb (w.clock 0 - t) n
unfolding run_heart_beat
run_heart_beat-set_heart_beat w name t s p n e h k =
    rw (e, run_heart_beat, get_heart_beat-set_heart_beat, sub-eq_pos (w.clock 0) t h k)
      (ground arith)

slice_contains-sound : (xs : List Str) (e : Str) → slice_contains xs e ≡ true → Memᴰ e xs
unfolding slice_contains
slice_contains-sound [] e h = cc
slice_contains-sound (x ∷ xs) e h = elim (Bool-cases (str_eq x e)) [
  | inl same ↦ Memᴰ.head (sym ((str_eq_iff x e).0 same))
  | inr other ↦ Memᴰ.tail (slice_contains-sound xs e (ground arith))
]

slice_contains_complete : (xs : List Str) (e : Str) → Memᴰ e xs → slice_contains xs e ≡ true
unfolding slice_contains
slice_contains_complete [] e m = elim m [ ]
slice_contains_complete (x ∷ xs) e (Memᴰ.head p) = ground (arith, str_eq_iff x e)
slice_contains_complete (x ∷ xs) e (Memᴰ.tail m) = ground (arith, slice_contains_complete xs e m)

-- All expected texts stand among the rows.
abbrev pub HoldsAll : List Str → List Str → Type 0
HoldsAll list expected = All (λ e. Memᴰ e list) expected

contains_all_sound :
    (list expected : List Str) → contains_all list expected ≡ true → HoldsAll list expected
contains_all_sound list [] h = tt
contains_all_sound list (e ∷ es) h =
    (slice_contains-sound list e (ground arith), contains_all_sound list es (ground arith))

contains_all_complete :
    (list expected : List Str) → HoldsAll list expected → contains_all list expected ≡ true
contains_all_complete list [] h = refl
contains_all_complete list (e ∷ es) h =
    ground (arith, slice_contains_complete list e h.0, contains_all_complete list es h.1)

run_queries_sound :
    (w : World) (dsn : Str) (expected queries : List Str)
    → run_queries w dsn expected queries ≡ true
    → All (λ q. HoldsAll (rows (sql_query w dsn q)) expected) queries
unfolding run_queries
run_queries_sound w dsn expected [] h = tt
run_queries_sound w dsn expected (q ∷ queries) h = (
  contains_all_sound (rows (sql_query w dsn q)) expected (ground arith),
  run_queries_sound w dsn expected queries (ground arith),
)

run_queries_complete :
    (w : World) (dsn : Str) (expected queries : List Str)
    → All (λ q. HoldsAll (rows (sql_query w dsn q)) expected) queries
    → run_queries w dsn expected queries ≡ true
unfolding run_queries
run_queries_complete w dsn expected [] h = refl
run_queries_complete w dsn expected (q ∷ queries) h = ground (
  arith,
  contains_all_complete (rows (sql_query w dsn q)) expected h.0,
  run_queries_complete w dsn expected queries h.1,
)

-- The queries of a SQL probe pass exactly when the rows of every query hold all expected texts, where
-- a failed query has no rows. (So a probe that expects no text passes although every query fails.)
pub run_queries_iff :
    (w : World) (dsn : Str) (expected queries : List Str)
    → (run_queries w dsn expected queries ≡ true)
      ↔ All (λ q. HoldsAll (rows (sql_query w dsn q)) expected) queries
run_queries_iff w dsn expected queries =
    (run_queries_sound w dsn expected queries, run_queries_complete w dsn expected queries)

-- An amqp probe whose kept connection has been closed fails once and drops it; if the broker can be
-- dialled at the next run, that run succeeds, and holds a connection if connections are reused.
pub run_amqp-redials :
    (w w' : World) (envs : Dict Str) (p : AmqpProbe) (h : Handles) (dsn : Str)
    → h.connection ≡ true
    → w.amqp_is_closed ≡ true
    → amqp_dsn w' envs ≡ some dsn
    → w'.amqp_dial dsn ≡ true
    → w'.amqp_close ≡ true
    → let (first, h1) = run_amqp w envs p h in
      let (second, h2) = run_amqp w' envs p h1 in
      (first ≡ false) × (second ≡ true) × (h2.connection ≡ p.reuse_conn)
unfolding run_amqp
run_amqp-redials w w' envs p h dsn held closed d dial close = ground arith
