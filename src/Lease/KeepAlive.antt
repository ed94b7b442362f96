-- ===== src/Lease/KeepAlive.antt =====
-- Keeping a lease alive, from the probe to etcd (pkg/process/probe_lock.go,
-- pkg/lease/handlers/lease.go).
use process_wrapper.Prelude.{
  if◌then◌else◌, ℕ, ◌<◌, ◌≡◌, refl, ◌∙◌, true, false, ◌++◌, some, Str, arith, Bool-cases, inl, inr,
}
use process_wrapper.Prelude.Int.{pos}
use process_wrapper.Prelude.Decimal.{decimal, parse_int, parse_int-decimal, int64_min_size}
use process_wrapper.Command.{LockProbe}
use process_wrapper.Outside.{World}
use process_wrapper.Probes.{run_lock, keep_alive_endpoint}
use process_wrapper.Http.{code}
use process_wrapper.Lease.{Etcd, answer, Request, keep_alive_handler}

-- A POST whose body is read without error.
abbrev pub IsClean : Request → Type 0
IsClean q = (q.is_post ≡ true) × (q.read_ok ≡ true) × (q.close_ok ≡ true)

-- The answer of the keep-alive handler to the numeral of a lease.
keep_alive_handler-decimal :
    (e : Etcd) (q : Request) (s : e.Store) (id : ℕ)
    → IsClean q
    → q.body ≡ decimal id
    → id < int64_min_size
    → (code (keep_alive_handler e q s).0 ≡ (if (e.keep_alive (pos id) s).1 then 200 else 204))
      × ((keep_alive_handler e q s).1 ≡ (e.keep_alive (pos id) s).0)
unfolding keep_alive_handler
keep_alive_handler-decimal e q s id clean b h =
    rw (clean.0, clean.1, clean.2, b, parse_int-decimal id h) (ground arith, refl)

-- From the probe to etcd: for the lease that an answer 201 of the server carried, the lock probe
-- succeeds exactly when etcd renews that lease.
pub run_lock-keep_alive :
    (e : Etcd) (q : Request) (s : e.Store) (id : ℕ) (w : World) (url : Str) (p : LockProbe)
    → IsClean q
    → id < int64_min_size
    → p.lease ≡ decimal id
    → q.body ≡ p.lease
    → w.http_post (url ++ keep_alive_endpoint) p.lease ≡ some (code (keep_alive_handler e q s).0)
    → run_lock w url p ≡ (e.keep_alive (pos id) s).1
unfolding run_lock
run_lock-keep_alive e q s id w url p clean h l b answer =
    let (status, store) = keep_alive_handler-decimal e q s id clean (b ∙ l) h in
    elim (Bool-cases (e.keep_alive (pos id) s).1) [
      | inl renewed ↦ rw (answer, run_lock, status, renewed)
      | inr expired ↦ rw (answer, run_lock, status, expired)
    ]

keep_alive_handler-unparsed :
    (e : Etcd) (q : Request) (s : e.Store)
    → IsClean q
    → (parse_int q.body).1 ≡ false
    → code (keep_alive_handler e q s).0 ≡ 500
unfolding keep_alive_handler
keep_alive_handler-unparsed e q s clean bad = rw (clean.0, clean.1, clean.2, bad) (ground arith)

-- A lease that is no number, such as the empty one of a command that never got the lock, passes the
-- probe: the server answers 500 to it, and the probe only takes 204 for a failure.
pub run_lock-unparsed :
    (e : Etcd) (q : Request) (s : e.Store) (w : World) (url : Str) (p : LockProbe)
    → IsClean q
    → (parse_int p.lease).1 ≡ false
    → q.body ≡ p.lease
    → w.http_post (url ++ keep_alive_endpoint) p.lease ≡ some (code (keep_alive_handler e q s).0)
    → run_lock w url p ≡ true
unfolding run_lock
run_lock-unparsed e q s w url p clean bad b answer =
    rw (answer, run_lock, keep_alive_handler-unparsed e q s clean (rw b bad))
