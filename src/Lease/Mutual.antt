-- ===== src/Lease/Mutual.antt =====
-- Two requests for one lock (`GetLease`, pkg/lease/lock/lock.go).
use process_wrapper.Prelude.{ℕ, ◌≡◌, ◌≢◌, refl, sym, ◌∙◌, Option, some, Str, arith, ap}
use process_wrapper.Prelude.Int.{ℤ, pos}
use process_wrapper.Http.{Response, no_response, code}
use process_wrapper.Lease.{
  Etcd, IsTransactional, Got, Others, get_lease, value_of, after_grant, after_create, renew,
}
use process_wrapper.Lease.Exclusion.{Creates, get_lease-created, get_lease_exclusive, at_create}

-- The change of etcd leaves the key bound to the lease: it does not end the lease or delete the key.
abbrev pub Keeps : (e : Etcd) → Str → ℕ → (e.Store → e.Store) → Type 0
Keeps e key id change = (s : e.Store) → e.holder key s ≡ some id → e.holder key (change s) ≡ some id

-- The documented effect of granting and renewing a lease on the keys that are bound: none.
pub record IsKeeping (e : Etcd) : Type 0 where
  pub grants : (ttl : ℤ) (key : Str) (id : ℕ) → Keeps e key id (λ s. (e.grant ttl s).0)
  pub renews : (lease : ℤ) (key : Str) (id : ℕ) → Keeps e key id (λ s. (e.keep_alive lease s).0)

created-store :
    (e : Etcd) (others : Others e) (key : Str) (body : Option Str) (ttl : ℤ) (r : Response)
    (s : e.Store) (id : ℕ)
    → Creates e others key (value_of body) ttl s id
    → (get_lease e others key body ttl r s).store
      ≡ (e.keep_alive
          (pos id)
          (others 2 (e.create key (value_of body) id (at_create e others ttl s)).0)).0
unfolding get_lease after_grant after_create renew
created-store e others key body ttl r s id c =
    ground (arith, c.not_found, c.granted, c.created, c.renewed)

-- What a request comes to.
abbrev pub got : (e : Etcd) (others : Others e) → Str → Option Str → ℤ → e.Store → Got e.Store
got e others key body ttl s = get_lease e others key body ttl no_response s

-- A request that is answered 201 leaves the key bound to its lease.
get_lease-holder :
    (e : Etcd) (others : Others e) (key : Str) (body : Option Str) (ttl : ℤ) (s : e.Store)
    → IsTransactional e
    → IsKeeping e
    → code (got e others key body ttl s).response ≡ 201
    → Keeps e key (got e others key body ttl s).lease (others 2)
    → e.holder key (got e others key body ttl s).store ≡ some (got e others key body ttl s).lease
get_lease-holder e others key body ttl s laws keeps h kept =
    let (id, c, same) = get_lease-created e others key body ttl no_response s refl h in
    let lease = (get_lease e others key body ttl no_response s).lease in
    let bound = laws.is_bound key (value_of body) id (at_create e others ttl s) c.created in
    ap (e.holder key) (created-store e others key body ttl no_response s id c)
    ∙ keeps.renews (pos id) key lease _ (kept _ (bound ∙ ap some (sym same)))

-- Mutual exclusion: when a request for a lock has been answered 201, no other request for the same lock
-- is, as long as the lease of the first has not ended and its key is not deleted, whatever else the
-- clients of etcd do between the two requests and between the calls of etcd that these make.
pub get_lease-refused :
    (e : Etcd) (others others' : Others e) (between : e.Store → e.Store) (key : Str)
    (body body' : Option Str) (ttl ttl' : ℤ) (s : e.Store)
    → IsTransactional e
    → IsKeeping e
    → code (got e others key body ttl s).response ≡ 201
    → Keeps e key (got e others key body ttl s).lease (others 2)
    → Keeps e key (got e others key body ttl s).lease between
    → ((i : ℕ) → Keeps e key (got e others key body ttl s).lease (others' i))
    → code (got e others' key body' ttl' (between (got e others key body ttl s).store)).response
      ≢ 201
get_lease-refused e others others' between key body body' ttl ttl' s laws keeps h k2 kb k' h' =
    let g = get_lease e others key body ttl no_response s in
    let held = get_lease-holder e others key body ttl s laws keeps h k2 in
    let still = k' 1 _ (keeps.grants ttl' key g.lease _ (k' 0 _ (kb g.store held))) in
    let free = (get_lease_exclusive e others' key body' ttl' (between g.store) laws h').0 in
    let clash = sym still ∙ free in cc
