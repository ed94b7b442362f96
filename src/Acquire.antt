-- ===== src/Acquire.antt =====
-- The client of the shared lock: `CreateLease` and `AcquireSharedLock` of pkg/process/process.go. The
-- HTTP client and `time.ParseDuration` are arguments.
pub mod Lease
pub mod Server
pub mod Sharing
pub mod Moves
mod Examples
use process_wrapper.Prelude.{
  ℕ, Bool, true, false, not, List, [], ◌∷◌, ◌++◌, Option, none, some, Str, codes, ◌==◌, is_empty,
  if◌then◌else◌,
}
use process_wrapper.Clock.{Duration, seconds}
use process_wrapper.Action.{Action, drop_state, sleep}
use process_wrapper.Command.{Command, Probe, LockProbe}

-- What one round of the loop meets: whether the context of the command is done, and the answer of the
-- server to a POST at an address with the header `x-lease-ttl`: an error of the request or of the
-- reading of its body, or the status and the body.
pub record Attempt : Type 0 where
  pub done : Bool
  pub post : Str → Str → Option (ℕ × Str)

abbrev lease_of : Option (ℕ × Str) → Option Str
lease_of none = none
lease_of (some (code, body)) = some (if code == 201 then body else [])

-- `CreateLease`: an error, or the lease, empty if none was created.
unfoldable pub create_lease : Attempt → Str → Str → Option Str
create_lease a shared_lock_url ttl = lease_of (a.post (shared_lock_url ++ codes "/lease") ttl)

-- The lease that a round gets, if any.
unfoldable pub granted : Attempt → Str → Str → Option Str
unfolding create_lease
granted a url ttl = elim (create_lease a url ttl) [
  | none ↦ none
  | some lease ↦ if is_empty lease then none else some lease
]

-- How the loop of `AcquireSharedLock` ends.
pub data Ending : Type 0 where
  waits : Ending
  context_closed : Ending
  acquired : Str → Ending

abbrev pub sleeping : Duration → List Action × Ending → List Action × Ending
sleeping d (actions, ending) = (sleep d ∷ actions, ending)

-- The loop, over the rounds that it meets. After an error and after an answer without a lease it
-- sleeps for the time to live.
unfoldable pub acquire_loop : Str → Str → Duration → List Attempt → List Action × Ending
unfolding granted
acquire_loop url ttl pause [] = ([], waits)
acquire_loop url ttl pause (a ∷ attempts) =
    let rest = acquire_loop url ttl pause attempts in
    if a.done
    then ([], context_closed)
    else elim (granted a url ttl) [ none ↦ sleeping pause rest | some lease ↦ ([], acquired lease) ]

-- The time to live of a lock, and the pause of the loop.
unfoldable pub lock_ttl : LockProbe → Str
lock_ttl p = if is_empty p.ttl_duration then codes "2s" else p.ttl_duration

unfoldable pub lock_pause : (Str → Option Duration) → LockProbe → Duration
unfolding lock_ttl
lock_pause parse_duration p = elim (parse_duration (lock_ttl p)) [ none ↦ seconds 2 | some d ↦ d ]

abbrev pub with_lease : LockProbe → Str → Ending → LockProbe
with_lease p ttl (acquired lease) = record { lease = lease; ttl_duration = ttl }
with_lease p ttl _ = record p { ttl_duration = ttl }

-- `AcquireSharedLock` of a command with the lock probe `p`: its actions, the probe afterwards, and how
-- the loop ended. (A command without a lock returns at once.)
unfoldable pub acquire_shared_lock :
    (Str → Option Duration)
    → Str
    → Str
    → LockProbe
    → List Attempt
    → List Action × LockProbe × Ending
unfolding acquire_loop lock_pause lock_ttl
acquire_shared_lock parse_duration url name p attempts =
    let (actions, ending) = acquire_loop url (lock_ttl p) (lock_pause parse_duration p) attempts in
    (drop_state name ∷ actions, with_lease p (lock_ttl p) ending, ending)
