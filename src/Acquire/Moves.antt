-- ===== src/Acquire/Moves.antt =====
-- `AcquireSharedLock` in full, and as the machine of `Run` has it (pkg/process/process.go).
use process_wrapper.Prelude.{
  ◌∙◌, arith, ℕ, ◌≡◌, refl, ap, Bool, true, List, [], ◌∷◌, Option, none, some, Str, is_some,
  Bool-cases, Option-cases, inl, inr, if◌then◌else◌,
}
use process_wrapper.Clock.{Time, Duration}
use process_wrapper.State.{State}
use process_wrapper.Action.{drop_state, perform, perform_all}
use process_wrapper.Command.{Command, Probe, LockProbe}
use process_wrapper.Lifecycle.{
  Pc, acquire, await_lock, start, Input, move, Tick, own, tick, run, Moved,
}
use process_wrapper.Acquire.{
  Attempt, granted, Ending, waits, acquire_loop, lock_ttl, lock_pause, acquire_shared_lock,
}

-- What a move of the loop is told of a round.
abbrev pub input_of : Str → Str → Time → Attempt → Input
input_of url ttl now a = record {
  context_done = a.done;
  lease_granted = is_some (granted a url ttl);
  launched = none;
  now = now;
}

-- The loop leaves in this round.
abbrev leaves : Str → Str → Attempt → Bool
leaves url ttl a = if a.done then true else is_some (granted a url ttl)

-- The moves of the loop, up to the one that leaves it.
abbrev pub loop_moves : Str → Str → Time → List Attempt → List Tick
loop_moves url ttl now [] = []
loop_moves url ttl now (a ∷ attempts) =
    own (input_of url ttl now a)
    ∷ (if leaves url ttl a then [] else loop_moves url ttl now attempts)

abbrev pub place_after : Ending → Pc
place_after waits = await_lock
place_after _ = start

loop_moves-run :
    (c : Command) (url ttl : Str) (pause : Duration) (now : Time) (attempts : List Attempt)
    (s : State) (n : ℕ)
    → let (actions, ending) = acquire_loop url ttl pause attempts in
      run c (loop_moves url ttl now attempts) (record { store = s; pc = await_lock; calls = n })
      ≡ record { store = perform_all actions s; pc = place_after ending; calls = n }
unfolding run tick move acquire_loop perform_all perform
loop_moves-run c url ttl pause now [] s n = refl
loop_moves-run c url ttl pause now (a ∷ attempts) s n = elim (Bool-cases a.done) [
  | inl done ↦ rw done refl
  | inr live ↦ elim (Option-cases (granted a url ttl)) [
    | inl refused ↦ rw (live, refused) (loop_moves-run c url ttl pause now attempts s n)
    | inr (lease, got) ↦ rw (live, got) refl
  ]
]

move-acquire :
    (c : Command) (p : Probe) (l : LockProbe) (i : Input) (s : State) (n : ℕ)
    → c.readiness ≡ some p
    → p.keep_shared_lock ≡ some l
    → move c i s acquire n ≡ record { actions = drop_state c.name ∷ []; pc = await_lock; calls = n }
unfolding move
move-acquire c p l i s n probe lock = ground arith

-- The machine of `Run` has the lock loop of `AcquireSharedLock` right: for a command with a lock probe,
-- its moves over the rounds of the loop, up to the round that leaves it, make of the shared state what the
-- actions of `AcquireSharedLock` make of it, whose sleeps leave it alone, and the machine then starts the
-- command exactly if the loop has ended.
pub acquire_shared_lock-move :
    (parse_duration : Str → Option Duration) (url : Str) (c : Command) (p : Probe) (l : LockProbe)
    (attempts : List Attempt) (first : Input) (now : Time) (s : State) (n : ℕ)
    → c.readiness ≡ some p
    → p.keep_shared_lock ≡ some l
    → let (actions, after, ending) = acquire_shared_lock parse_duration url c.name l attempts in
      run c
        (own first ∷ loop_moves url (lock_ttl l) now attempts)
        (record { store = s; pc = acquire; calls = n })
      ≡ record { store = perform_all actions s; pc = place_after ending; calls = n }
unfolding run tick acquire_shared_lock perform_all
acquire_shared_lock-move parse_duration url c p l attempts first now s n probe lock =
    let rest = loop_moves url (lock_ttl l) now attempts in
    ap
      (λ (m : Moved).
        run c rest (record { store = perform_all m.actions s; pc = m.pc; calls = m.calls }))
      (move-acquire c p l first s n probe lock)
    ∙ loop_moves-run c url (lock_ttl l) (lock_pause parse_duration l) now attempts
        (perform (drop_state c.name) s) n
