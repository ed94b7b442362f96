-- ===== src/Acquire/Sharing.antt =====
-- The lock probe that the replicas of a command share: `NewSchedule` copies the pointer `Readiness` of
-- an entry of the configuration to each of its replicas, and `AcquireSharedLock` writes behind that
-- pointer (pkg/process/process.go).
use mathlib.Core.List.{Memᴰ}
use process_wrapper.Prelude.{
  ℕ, zero, suc, ◌+◌, ◌<◌, ◌≤◌, ◌≡◌, ◌≢◌, refl, ap, ◌∙◌, true, false, List, [], ◌∷◌, ◌++◌, Str,
  codes, arith, ◌==◌, ==_iff, map, All, Bool-cases, inl, inr, slice_contains, is_empty,
  if◌then◌else◌,
}
use process_wrapper.Prelude.Int.{ℤ, pos, negsuc}
use process_wrapper.Command.{Command, LockProbe}
use process_wrapper.Outside.{World}
use process_wrapper.Probes.{run_lock}
use process_wrapper.Schedule.{replica, replicas_from, expand, schedule}

-- A command whose field `Readiness` is a pointer: the address of the probe behind it.
pub record Pointed : Type 0 where
  pub command : Command
  pub readiness : ℕ

-- The literal of a replica copies the pointer.
unfoldable pub replica_at : Pointed → ℕ → Pointed
replica_at p r = record { command = replica p.command r; readiness = p.readiness }

-- The loop over `r`: `n` rounds are left.
unfoldable pub replicas_at : Pointed → ℕ → ℕ → List Pointed
unfolding replica_at
replicas_at p r zero = []
replicas_at p r (suc n) = replica_at p r ∷ replicas_at p (r + 1) n

abbrev expand_at : Pointed → ℤ → List Pointed
expand_at p (pos zero) = p ∷ []
expand_at p (pos (suc n)) = replicas_at p 0 (suc n)
expand_at p (negsuc n) = p ∷ []

-- The commands that `NewSchedule` starts, with their pointers.
unfoldable pub schedule_at : List Str → List Pointed → List Pointed
unfolding replicas_at slice_contains
schedule_at skip_commands [] = []
schedule_at skip_commands (p ∷ commands) =
    let rest = schedule_at skip_commands commands in
    if slice_contains skip_commands p.command.name
    then rest
    else expand_at p p.command.replicas ++ rest

abbrev command_of : Pointed → Command
command_of p = p.command

replicas_at-replicas_from :
    (p : Pointed) (r n : ℕ) → map command_of (replicas_at p r n) ≡ replicas_from p.command r n
unfolding replicas_at replica_at replicas_from
replicas_at-replicas_from p r zero = refl
replicas_at-replicas_from p r (suc n) =
    ap (λ cs. replica p.command r ∷ cs) (replicas_at-replicas_from p (r + 1) n)

map-append :
    (xs ys : List Pointed) → map command_of (xs ++ ys) ≡ map command_of xs ++ map command_of ys
map-append [] ys = refl
map-append (x ∷ xs) ys = ap (λ cs. x.command ∷ cs) (map-append xs ys)

expand_at-expand : (p : Pointed) (n : ℤ) → map command_of (expand_at p n) ≡ expand p.command n
expand_at-expand p (pos zero) = refl
expand_at-expand p (pos (suc n)) = replicas_at-replicas_from p 0 (suc n)
expand_at-expand p (negsuc n) = refl

-- Without the pointers it is the model of `NewSchedule` in Schedule.
pub schedule_at-schedule :
    (skip : List Str) (ps : List Pointed)
    → map command_of (schedule_at skip ps) ≡ schedule skip (map command_of ps)
unfolding schedule_at schedule
schedule_at-schedule skip [] = refl
schedule_at-schedule skip (p ∷ ps) = elim (Bool-cases (slice_contains skip p.command.name)) [
  | inl skipped ↦ rw skipped (schedule_at-schedule skip ps)
  | inr kept ↦ rw (kept, map-append, expand_at-expand, schedule_at-schedule skip ps) refl
]

-- The lock probes `Readiness.KeepSharedLock`, by the address of the probe that holds them.
abbrev pub Locks : Type 0
Locks = ℕ → LockProbe

abbrev set_lock : ℕ → LockProbe → Locks → Locks
set_lock k p locks = λ j. if k == j then p else locks j

-- The writes of `AcquireSharedLock`: the default of the time to live, and the lease that was acquired.
pub data LockWrite : Type 0 where
  default_ttl : Pointed → LockWrite
  store_lease : Pointed → Str → LockWrite

unfoldable pub write_lock : LockWrite → Locks → Locks
write_lock (default_ttl c) locks =
    let lock = locks c.readiness in
    if is_empty lock.ttl_duration
    then set_lock c.readiness (record lock { ttl_duration = codes "2s" }) locks
    else locks
write_lock (store_lease c lease) locks =
    set_lock c.readiness (record (locks c.readiness) { lease = lease }) locks

-- The writes of all commands, in the order in which they happen.
unfoldable pub write_locks : List LockWrite → Locks → Locks
unfolding write_lock
write_locks [] locks = locks
write_locks (w ∷ writes) locks = write_locks writes (write_lock w locks)

-- Not a lease for the lock probe at an address.
abbrev pub IsElsewhere : ℕ → LockWrite → Type 0
IsElsewhere k (default_ttl c) = Unit
IsElsewhere k (store_lease c lease) = c.readiness ≢ k

write_lock-IsElsewhere :
    (k : ℕ) (w : LockWrite) (locks : Locks)
    → IsElsewhere k w
    → (write_lock w locks k).lease ≡ (locks k).lease
unfolding write_lock
write_lock-IsElsewhere k (default_ttl c) locks h =
    elim (Bool-cases (is_empty (locks c.readiness).ttl_duration)) [
      | inl unset ↦ elim (Bool-cases (c.readiness == k)) [
        | inl same ↦ rw (unset, same) (ap (λ j. (locks j).lease) ((==_iff c.readiness k).0 same))
        | inr other ↦ rw (unset, other) refl
      ]
      | inr given ↦ rw given refl
    ]
write_lock-IsElsewhere k (store_lease c lease) locks h = elim (Bool-cases (c.readiness == k)) [
  | inl same ↦ absurd (h ((==_iff c.readiness k).0 same))
  | inr other ↦ rw other refl
]

write_locks-IsElsewhere :
    (k : ℕ) (writes : List LockWrite) (locks : Locks)
    → All (IsElsewhere k) writes
    → (write_locks writes locks k).lease ≡ (locks k).lease
unfolding write_locks
write_locks-IsElsewhere k [] locks h = refl
write_locks-IsElsewhere k (w ∷ writes) locks h =
    write_locks-IsElsewhere k writes (write_lock w locks) h.1 ∙ write_lock-IsElsewhere k w locks h.0

==_refl : (k : ℕ) → (k == k) ≡ true
==_refl k = (==_iff k k).1 refl

store_lease-same :
    (c : Pointed) (lease : Str) (locks : Locks)
    → (write_lock (store_lease c lease) locks c.readiness).lease ≡ lease
unfolding write_lock
store_lease-same c lease locks = rw (==_refl c.readiness) refl

write_locks-store_lease :
    (c : Pointed) (lease : Str) (before later : List LockWrite) (locks : Locks)
    → All (IsElsewhere c.readiness) later
    → (write_locks (before ++ (store_lease c lease ∷ later)) locks c.readiness).lease ≡ lease
unfolding write_locks
write_locks-store_lease c lease [] later locks h =
    write_locks-IsElsewhere c.readiness later (write_lock (store_lease c lease) locks) h
    ∙ store_lease-same c lease locks
write_locks-store_lease c lease (w ∷ before) later locks h =
    write_locks-store_lease c lease before later (write_lock w locks) h

run_lock-lease :
    (w : World) (url : Str) (p q : LockProbe)
    → p.lease ≡ q.lease
    → run_lock w url p ≡ run_lock w url q
unfolding run_lock
run_lock-lease w url p q h = rw h refl

replicas_at-Memᴰ :
    (p : Pointed) (r n k : ℕ) → r ≤ k → k < r + n → Memᴰ (replica_at p k) (replicas_at p r n)
unfolding replicas_at
replicas_at-Memᴰ p r zero k low high = absurd (omega arith)
replicas_at-Memᴰ p r (suc n) k low high = elim (Bool-cases (k == r)) [
  | inl same ↦ Memᴰ.head (ap (replica_at p) ((==_iff k r).0 same))
  | inr later ↦
      Memᴰ.tail (replicas_at-Memᴰ p (r + 1) n k (ground (arith, ==_iff k r)) (omega arith))
]

Memᴰ-append_left : {A : Type 0} (x : A) (xs ys : List A) → Memᴰ x xs → Memᴰ x (xs ++ ys)
Memᴰ-append_left x [] ys m = elim m [ ]
Memᴰ-append_left x (y ∷ xs) ys (Memᴰ.head e) = Memᴰ.head e
Memᴰ-append_left x (y ∷ xs) ys (Memᴰ.tail m) = Memᴰ.tail (Memᴰ-append_left x xs ys m)

Memᴰ-append_right : {A : Type 0} (x : A) (xs ys : List A) → Memᴰ x ys → Memᴰ x (xs ++ ys)
Memᴰ-append_right x [] ys m = m
Memᴰ-append_right x (y ∷ xs) ys m = Memᴰ.tail (Memᴰ-append_right x xs ys m)

expand_at-Memᴰ :
    (p : Pointed) (n : ℤ) (k count : ℕ)
    → n ≡ pos count
    → k < count
    → Memᴰ (replica_at p k) (expand_at p n)
expand_at-Memᴰ p n k zero e h = absurd (omega arith)
expand_at-Memᴰ p n k (suc count) e h =
    rw e (replicas_at-Memᴰ p 0 (suc count) k (omega arith) (omega arith))

schedule_at-replica :
    (skip : List Str) (ps : List Pointed) (p : Pointed) (k count : ℕ)
    → Memᴰ p ps
    → slice_contains skip p.command.name ≡ false
    → p.command.replicas ≡ pos count
    → k < count
    → Memᴰ (replica_at p k) (schedule_at skip ps)
unfolding schedule_at
schedule_at-replica skip [] p k count m kept n h = elim m [ ]
schedule_at-replica skip (q ∷ ps) p k count (Memᴰ.head e) kept n h =
    let here =
      Memᴰ-append_left (replica_at p k) (expand_at p p.command.replicas) (schedule_at skip ps)
        (expand_at-Memᴰ p p.command.replicas k count n h) in
    rw (← e, kept) here
schedule_at-replica skip (q ∷ ps) p k count (Memᴰ.tail m) kept n h =
    let later = schedule_at-replica skip ps p k count m kept n h in
    elim (Bool-cases (slice_contains skip q.command.name)) [
      | inl skipped ↦ rw skipped later
      | inr run ↦
          rw run (Memᴰ-append_right (replica_at p k) (expand_at q q.command.replicas) _ later)
    ]

-- The replicas of an entry of the configuration share one lease. Two of them are among the commands that
-- `NewSchedule` starts; when one of them has acquired a lease, then, until a command with the same
-- probe acquires another, whatever the commands write before and else, the lock probe of each of the
-- two asks the lock server to renew this lease, and passes as if it were its own.
pub replicas_share_lease :
    (w : World) (url : Str) (skip : List Str) (ps : List Pointed) (p : Pointed) (holder k count : ℕ)
    (lease : Str) (before later : List LockWrite) (locks : Locks)
    → Memᴰ p ps
    → slice_contains skip p.command.name ≡ false
    → p.command.replicas ≡ pos count
    → holder < count
    → k < count
    → All (IsElsewhere p.readiness) later
    → let writes = before ++ (store_lease (replica_at p holder) lease ∷ later) in
      Memᴰ (replica_at p holder) (schedule_at skip ps)
      × Memᴰ (replica_at p k) (schedule_at skip ps)
      × (run_lock w url (write_locks writes locks (replica_at p k).readiness)
          ≡ run_lock w url (record { lease = lease; ttl_duration = [] }))
unfolding replica_at
replicas_share_lease w url skip ps p holder k count lease before later locks here kept n h h'
      others =
    (
      schedule_at-replica skip ps p holder count here kept n h,
      schedule_at-replica skip ps p k count here kept n h',
      run_lock-lease w url _ _
          (write_locks-store_lease (replica_at p holder) lease before later locks others),
    )
