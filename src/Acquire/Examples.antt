-- ===== src/Acquire/Examples.antt =====
-- Tests of the client of the shared lock.
use mathlib.Core.List.{Memᴰ}
use process_wrapper.Prelude.{slice_contains, arith, List, ◌++◌}
use process_wrapper.Prelude.Int.{pos}
use process_wrapper.Probes.{run_lock}
use process_wrapper.Sample.{web_command, api_command, world_at}
use process_wrapper.Acquire.Sharing.{
  Pointed, Locks, LockWrite, default_ttl, store_lease, replica_at, schedule_at, write_locks,
  replicas_share_lease,
}
use process_wrapper.Prelude.{◌++◌, ◌≡◌, refl, false, [], ◌∷◌, some, none, Str, codes}
use process_wrapper.Prelude.Decimal.{decimal}
use process_wrapper.Http.{code, no_response}
use process_wrapper.Action.{drop_state}
use process_wrapper.Command.{LockProbe}
use process_wrapper.Lease.{whole_seconds, lease_ttl, get_lease, lease_handler}
use process_wrapper.Lease.Exclusion.{at_create}
use process_wrapper.Lease.OneKey.{etcd, etcd-IsTransactional, idle, free}
use process_wrapper.Acquire.{
  true, Attempt, acquired, granted, create_lease, lock_ttl, lock_pause, acquire_shared_lock,
}
use process_wrapper.Acquire.Lease.{sleeps, acquire_shared_lock-first}
use process_wrapper.Acquire.Server.{served, granted-exclusive}
use process_wrapper.Sample.{web}

abbrev refused : Attempt
refused = record { done = false; post = λ url ttl. some (202, codes "0") }

abbrev unreachable : Attempt
unreachable = record { done = false; post = λ url ttl. none }

abbrev created : Attempt
created = record { done = false; post = λ url ttl. some (201, codes "77") }

abbrev lock_probe : LockProbe
lock_probe = record { lease = []; ttl_duration = [] }

abbrev lock_url : Str
lock_url = codes "http://lock"

acquire_shared_lock-first_example :
    acquire_shared_lock
      (λ text. none)
      lock_url
      web
      lock_probe
      (refused ∷ unreachable ∷ created ∷ [])
    ≡ (
      drop_state web ∷ sleeps (lock_pause (λ text. none) lock_probe) 2,
      record { lease = codes "77"; ttl_duration = lock_ttl lock_probe },
      acquired (codes "77"),
    )
acquire_shared_lock-first_example =
    acquire_shared_lock-first (λ text. none) lock_url web (codes "77") lock_probe
      (refused ∷ unreachable ∷ []) [] created
      (unfold granted create_lease in ((refl, refl), ((refl, refl), tt))) refl refl refl

-- The server answers the request of the command.
abbrev body : Str
body = codes "web"

abbrev served_one : Attempt
served_one =
    let r = served etcd (λ text. text) (λ header. none) idle body (codes "2s") free in
    record { done = false; post = λ url ttl. some (code r, r.body) }

granted_five : granted served_one lock_url (codes "2s") ≡ some (codes "5")
unfolding granted create_lease lease_handler get_lease decimal
granted_five = refl

granted-exclusive_example :
    let key = codes "/shared-lock/" ++ body in
    let time = whole_seconds (lease_ttl (λ header. none) (codes "2s")) in
    let id = (get_lease etcd idle key (some body) time no_response free).lease in
    (codes "5" ≡ decimal id)
    × (etcd.holder key (at_create etcd idle time free) ≡ none)
    × (etcd.holder key (etcd.create key body id (at_create etcd idle time free)).0 ≡ some id)
granted-exclusive_example =
    granted-exclusive etcd (λ text. text) (λ header. none) idle free served_one lock_url body
      (codes "2s") (codes "5") etcd-IsTransactional refl granted_five

-- A command with two replicas, which share the probe at the address 3, and another command.
abbrev twin : Pointed
twin = record { command = record web_command { replicas = pos 2 }; readiness = 3 }

abbrev single : Pointed
single = record { command = api_command; readiness = 4 }

abbrev locks : Locks
locks address = lock_probe

-- Replica 0 acquires the lease 77, replica 1 then 78.
abbrev both_acquire : List LockWrite
both_acquire =
    (default_ttl (replica_at twin 0) ∷ store_lease (replica_at twin 0) (codes "77") ∷ [])
    ++ (store_lease (replica_at twin 1) (codes "78")
        ∷ store_lease single (codes "79")
        ∷ default_ttl single
        ∷ [])

replicas_share_lease_example :
    Memᴰ (replica_at twin 1) (schedule_at [] (single ∷ twin ∷ []))
    × Memᴰ (replica_at twin 0) (schedule_at [] (single ∷ twin ∷ []))
    × (run_lock
          (world_at 7 true)
          lock_url
          (write_locks both_acquire locks (replica_at twin 0).readiness)
        ≡ run_lock (world_at 7 true) lock_url (record { lease = codes "78"; ttl_duration = [] }))
unfolding slice_contains
replicas_share_lease_example =
    replicas_share_lease (world_at 7 true) lock_url [] (single ∷ twin ∷ []) twin 1 0 2 (codes "78")
      (default_ttl (replica_at twin 0) ∷ store_lease (replica_at twin 0) (codes "77") ∷ [])
      (store_lease single (codes "79") ∷ default_ttl single ∷ []) locks (Memᴰ.tail (Memᴰ.head refl))
      refl refl (omega arith) (omega arith) ((λ e. omega arith), (tt, tt))
