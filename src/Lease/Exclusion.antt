-- ===== src/Lease/Exclusion.antt =====
-- A lease is only handed out for a key that was free (`GetLease`, pkg/lease/lock/lock.go).
use process_wrapper.Prelude.{ℕ, ◌≡◌, refl, ◌↔◌, Bool, true, false, Option, none, some, Str, arith}
use process_wrapper.Prelude.Int.{ℤ, pos}
use process_wrapper.Http.{write_header, Response, no_response, code}
use process_wrapper.Lease.{
  Etcd, IsTransactional, Got, Others, get_lease, value_of, after_grant, after_create, renew,
}

-- Every etcd call of a `GetLease` that finds the key free, and succeeds.
pub record Creates (e : Etcd) (others : Others e) (key value : Str) (ttl : ℤ) (s : e.Store) (id : ℕ)
    : Type 0 where
  pub not_found : e.get key s ≡ some false
  pub granted : (e.grant ttl (others 0 s)).1 ≡ some id
  pub created : (e.create key value id (others 1 (e.grant ttl (others 0 s)).0)).1 ≡ some true
  pub renewed :
      (e.keep_alive
        (pos id)
        (others 2 (e.create key value id (others 1 (e.grant ttl (others 0 s)).0)).0)).1
      ≡ true

renew-created :
    (e : Etcd) (r : Response) (id : ℕ) (k : e.Store × Bool)
    → r.status ≡ none
    → code (renew e r id k).response ≡ 201
    → (k.1 ≡ true) × ((renew e r id k).lease ≡ id)
unfolding renew
renew-created e r id (s, true) f h = (refl, refl)
renew-created e r id (s, false) f h = ground arith

after_create-created :
    (e : Etcd) (others : Others e) (r : Response) (id : ℕ) (c : e.Store × Option Bool)
    → r.status ≡ none
    → code (after_create e others r id c).response ≡ 201
    → (c.1 ≡ some true)
      × ((e.keep_alive (pos id) (others 2 c.0)).1 ≡ true)
      × ((after_create e others r id c).lease ≡ id)
unfolding after_create
after_create-created e others r id (s, none) f h = ground arith
after_create-created e others r id (s, some false) f h = ground arith
after_create-created e others r id (s, some true) f h =
    let (kept, same) = renew-created e r id (e.keep_alive (pos id) (others 2 s)) f h in
    (refl, kept, same)

after_grant-created :
    (e : Etcd) (others : Others e) (key value : Str) (r : Response) (g : e.Store × Option ℕ)
    → r.status ≡ none
    → code (after_grant e others key value r g).response ≡ 201
    → (id : ℕ) × (g.1 ≡ some id)
      × ((e.create key value id (others 1 g.0)).1 ≡ some true)
      × ((e.keep_alive (pos id) (others 2 (e.create key value id (others 1 g.0)).0)).1 ≡ true)
      × ((after_grant e others key value r g).lease ≡ id)
unfolding after_grant
after_grant-created e others key value r (s, none) f h = ground arith
after_grant-created e others key value r (s, some id) f h =
    let (created, kept, same) =
      after_create-created e others r id (e.create key value id (others 1 s)) f h in
    (id, refl, created, kept, same)

-- What follows a `Get`, by its answer.
abbrev pub after_get :
    (e : Etcd) → Others e → Str → Str → ℤ → Response → e.Store → Option Bool → Got e.Store
after_get e others key value ttl r s none = record {
  failed = true;
  lease = 0;
  response = r;
  store = s;
}
after_get e others key value ttl r s (some true) = record {
  failed = false;
  lease = 0;
  response = write_header 202 r;
  store = s;
}
after_get e others key value ttl r s (some false) =
    after_grant e others key value r (e.grant ttl (others 0 s))

pub get_lease-after_get :
    (e : Etcd) (others : Others e) (key : Str) (body : Option Str) (ttl : ℤ) (r : Response)
    (s : e.Store)
    → get_lease e others key body ttl r s
      ≡ after_get e others key (value_of body) ttl r s (e.get key s)
unfolding get_lease
get_lease-after_get e others key body ttl r s = ground arith

after_get-created :
    (e : Etcd) (others : Others e) (key value : Str) (ttl : ℤ) (r : Response) (s : e.Store)
    (found : Option Bool)
    → e.get key s ≡ found
    → r.status ≡ none
    → code (after_get e others key value ttl r s found).response ≡ 201
    → (id : ℕ) × Creates e others key value ttl s id
      × ((after_get e others key value ttl r s found).lease ≡ id)
unfolding write_header
after_get-created e others key value ttl r s none x f h = ground arith
after_get-created e others key value ttl r s (some true) x f h = ground arith
after_get-created e others key value ttl r s (some false) x f h =
    let (id, granted, created, kept, same) =
      after_grant-created e others key value r (e.grant ttl (others 0 s)) f h in
    (id, record { not_found = x; granted = granted; created = created; renewed = kept }, same)

pub get_lease-created :
    (e : Etcd) (others : Others e) (key : Str) (body : Option Str) (ttl : ℤ) (r : Response)
    (s : e.Store)
    → r.status ≡ none
    → code (get_lease e others key body ttl r s).response ≡ 201
    → (id : ℕ) × Creates e others key (value_of body) ttl s id
      × ((get_lease e others key body ttl r s).lease ≡ id)
get_lease-created e others key body ttl r s f h =
    let same = get_lease-after_get e others key body ttl r s in
    rw same
      (after_get-created e others key (value_of body) ttl r s (e.get key s) refl f (rw same at h))

created-get_lease :
    (e : Etcd) (others : Others e) (key : Str) (body : Option Str) (ttl : ℤ) (r : Response)
    (s : e.Store) (id : ℕ)
    → r.status ≡ none
    → Creates e others key (value_of body) ttl s id
    → code (get_lease e others key body ttl r s).response ≡ 201
unfolding get_lease after_grant after_create renew
created-get_lease e others key body ttl r s id f c = ground arith

-- `GetLease` answers 201 exactly when it finds no such key, is granted a lease, creates the key under
-- it in the transaction and renews it; then its result is that lease. What other clients do between
-- its calls of etcd is arbitrary.
pub get_lease_created_iff :
    (e : Etcd) (others : Others e) (key : Str) (body : Option Str) (ttl : ℤ) (s : e.Store)
    → (code (get_lease e others key body ttl no_response s).response ≡ 201) ↔ (
        (id : ℕ) × Creates e others key (value_of body) ttl s id
        × ((get_lease e others key body ttl no_response s).lease ≡ id))
get_lease_created_iff e others key body ttl s = (
  get_lease-created e others key body ttl no_response s refl,
  λ c. created-get_lease e others key body ttl no_response s c.0 refl c.1,
)

-- The state of etcd that the transaction of a `GetLease` meets, if its lease is granted.
abbrev pub at_create : (e : Etcd) → Others e → ℤ → e.Store → e.Store
at_create e others ttl s = others 1 (e.grant ttl (others 0 s)).0

-- While a key is bound to a lease, nobody else is told that the lock is his: if it is bound when the
-- transaction of a `GetLease` is made, the answer is not 201. If the answer is 201, the transaction
-- found the key free and bound it to the lease of the result.
pub get_lease_exclusive :
    (e : Etcd) (others : Others e) (key : Str) (body : Option Str) (ttl : ℤ) (s : e.Store)
    → IsTransactional e
    → code (get_lease e others key body ttl no_response s).response ≡ 201
    → let id = (get_lease e others key body ttl no_response s).lease in
      (e.holder key (at_create e others ttl s) ≡ none)
      × (e.holder key (e.create key (value_of body) id (at_create e others ttl s)).0 ≡ some id)
get_lease_exclusive e others key body ttl s laws h =
    let (id, c, same) = get_lease-created e others key body ttl no_response s refl h in
    rw same (
      laws.was_free key (value_of body) id (at_create e others ttl s) c.created,
      laws.is_bound key (value_of body) id (at_create e others ttl s) c.created,
    )
