-- ===== src/Acquire/Lease.antt =====
-- Which lease `AcquireSharedLock` takes (pkg/process/process.go).
use process_wrapper.Prelude.{
  ℕ, zero, suc, ◌≡◌, refl, false, List, [], ◌∷◌, ◌++◌, Option, none, some, Str, codes, All, length,
  is_empty,
}
use process_wrapper.Clock.{Duration}
use process_wrapper.Action.{Action, drop_state, sleep}
use process_wrapper.Command.{LockProbe}
use process_wrapper.Acquire.{
  Attempt, granted, create_lease, acquired, acquire_loop, lock_ttl, lock_pause, acquire_shared_lock,
}

-- A round of a live context in which no lease is created.
abbrev pub IsRefused : Str → Str → Attempt → Type 0
IsRefused url ttl a = (a.done ≡ false) × (granted a url ttl ≡ none)

abbrev pub sleeps : Duration → ℕ → List Action
sleeps d zero = []
sleeps d (suc n) = sleep d ∷ sleeps d n

granted-created :
    (a : Attempt) (url ttl lease : Str)
    → a.post (url ++ codes "/lease") ttl ≡ some (201, lease)
    → is_empty lease ≡ false
    → granted a url ttl ≡ some lease
unfolding granted create_lease
granted-created a url ttl lease e h = rw (granted, create_lease, e, h) refl

acquire_loop-first :
    (url ttl lease : Str) (pause : Duration) (before later : List Attempt) (a : Attempt)
    → All (IsRefused url ttl) before
    → a.done ≡ false
    → granted a url ttl ≡ some lease
    → acquire_loop url ttl pause (before ++ (a ∷ later))
      ≡ (sleeps pause (length before), acquired lease)
unfolding acquire_loop
acquire_loop-first url ttl lease pause [] later a h live g = rw (live, g) refl
acquire_loop-first url ttl lease pause (b ∷ before) later a h live g =
    rw (h.0.0, h.0.1, acquire_loop-first url ttl lease pause before later a h.1 live g) refl

-- `AcquireSharedLock` withdraws the status of the command, sleeps after each round in which no lease
-- is created, and takes the body of the first answer 201 as the lease of its lock probe, if it is
-- not empty and the context is not done before.
pub acquire_shared_lock-first :
    (parse_duration : Str → Option Duration) (url name lease : Str) (p : LockProbe)
    (before later : List Attempt) (a : Attempt)
    → All (IsRefused url (lock_ttl p)) before
    → a.done ≡ false
    → a.post (url ++ codes "/lease") (lock_ttl p) ≡ some (201, lease)
    → is_empty lease ≡ false
    → acquire_shared_lock parse_duration url name p (before ++ (a ∷ later)) ≡ (
      drop_state name ∷ sleeps (lock_pause parse_duration p) (length before),
      record { lease = lease; ttl_duration = lock_ttl p },
      acquired lease,
    )
unfolding acquire_shared_lock
acquire_shared_lock-first parse_duration url name lease p before later a h live e full =
    rw
      (acquire_loop-first url (lock_ttl p) lease (lock_pause parse_duration p) before later a h live
        (granted-created a url (lock_ttl p) lease e full))
      refl
