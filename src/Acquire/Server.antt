-- ===== src/Acquire/Server.antt =====
-- The two ends of the shared lock together: `AcquireSharedLock` and the lock probe of a command
-- (pkg/process/process.go, probe_lock.go) against the handlers of the server
-- (pkg/lease/handlers/lease.go).
use process_wrapper.Prelude.{
  ℕ, ◌≡◌, refl, ◌∙◌, Bool, true, false, [], ◌++◌, Option, none, some, Str, codes, arith, ==_iff,
  Bool-cases, Option-cases, inl, inr,
}
use process_wrapper.Prelude.Int.{ℤ, pos}
use process_wrapper.Prelude.Decimal.{decimal}
use process_wrapper.Clock.{Duration}
use process_wrapper.Http.{Response, code, no_response, write_header, write}
use process_wrapper.Lease.{
  value_of, Etcd, IsTransactional, Request, Others, Got, get_lease, after_grant, after_create,
  renew, lease_handler, answer, lease_ttl, whole_seconds, read_http_body,
}
use process_wrapper.Lease.Exclusion.{at_create, get_lease_exclusive}
use process_wrapper.Acquire.{Attempt, create_lease, granted}

-- The request of `CreateLease`.
abbrev pub post_of : Str → Str → Request
post_of body ttl = record {
  is_post = true;
  body = body;
  read_ok = true;
  close_ok = true;
  ttl = ttl;
}

module _ (e : Etcd) (others : Others e) (key : Str) where
  renew-body :
      (r : Response) (id : ℕ) (kept : e.Store × Bool) → (renew e r id kept).response.body ≡ r.body
  unfolding renew write_header
  renew-body r id (s, true) = refl
  renew-body r id (s, false) = refl

  after_create-body :
      (r : Response) (id : ℕ) (created : e.Store × Option Bool)
      → (after_create e others r id created).response.body ≡ r.body
  unfolding after_create write_header
  after_create-body r id (s, none) = refl
  after_create-body r id (s, some false) = refl
  after_create-body r id (s, some true) = renew-body r id (e.keep_alive (pos id) (others 2 s))

  after_grant-body :
      (value : Str) (r : Response) (grant : e.Store × Option ℕ)
      → (after_grant e others key value r grant).response.body ≡ r.body
  unfolding after_grant write_header
  after_grant-body value r (s, none) = refl
  after_grant-body value r (s, some id) =
      after_create-body r id (e.create key value id (others 1 s))

  get_lease-body :
      (body : Option Str) (ttl : ℤ) (r : Response) (s : e.Store)
      → (get_lease e others key body ttl r s).response.body ≡ r.body
  unfolding get_lease
  get_lease-body body ttl r s = elim (Option-cases (e.get key s)) [
    | inl failed ↦ rw (get_lease, failed) refl
    | inr (there, found) ↦ elim (Bool-cases there) [
      | inl held ↦ rw (get_lease, found, held) (unfold write_header in refl)
      | inr free ↦
          rw (get_lease, found, free)
            (after_grant-body (value_of body) r (e.grant ttl (others 0 s)))
    ]
  ]

-- An answer is 201 only if `GetLease` has said so.
answer-created : (e : Etcd) (g : Got e.Store) → code (answer e g).0 ≡ 201 → code g.response ≡ 201
unfolding write write_header
answer-created e g h = ground arith

answer-body :
    (e : Etcd) (g : Got e.Store) → g.response.body ≡ [] → (answer e g).0.body ≡ decimal g.lease
unfolding write write_header
answer-body e g h = ground arith

granted-created :
    (a : Attempt) (url ttl lease body : Str) (status : ℕ)
    → a.post (url ++ codes "/lease") ttl ≡ some (status, body)
    → granted a url ttl ≡ some lease
    → (status ≡ 201) × (lease ≡ body)
unfolding granted create_lease
granted-created a url ttl lease body status posted h = ground (arith, ==_iff status 201)

-- The handler of /lease on the request of `CreateLease`.
abbrev pub served :
    (e : Etcd) → (Str → Str) → (Str → Option Duration) → Others e → Str → Str → e.Store → Response
served e lease_key parse_duration others body ttl s =
    (lease_handler e lease_key parse_duration others (post_of body ttl) s).0

-- What the server grants a command is bound to a key that was free: the lease of the command is the
-- numeral of the etcd lease to which the server's transaction has bound the key of the command, and
-- the transaction found that key free. (What other clients of etcd do in between is arbitrary.)
pub granted-exclusive :
    (e : Etcd) (lease_key : Str → Str) (parse_duration : Str → Option Duration) (others : Others e)
    (s : e.Store) (a : Attempt) (url body ttl lease : Str)
    → IsTransactional e
    → (let r = served e lease_key parse_duration others body ttl s in
        a.post (url ++ codes "/lease") ttl ≡ some (code r, r.body))
    → granted a url ttl ≡ some lease
    → let key = codes "/shared-lock/" ++ lease_key body in
      let time = whole_seconds (lease_ttl parse_duration ttl) in
      let id = (get_lease e others key (some body) time no_response s).lease in
      (lease ≡ decimal id)
      × (e.holder key (at_create e others time s) ≡ none)
      × (e.holder key (e.create key body id (at_create e others time s)).0 ≡ some id)
unfolding lease_handler read_http_body
granted-exclusive e lease_key parse_duration others s a url body ttl lease laws posted h =
    let key = codes "/shared-lock/" ++ lease_key body in
    let time = whole_seconds (lease_ttl parse_duration ttl) in
    let g = get_lease e others key (some body) time no_response s in
    let r = served e lease_key parse_duration others body ttl s in
    let (created, same) = granted-created a url ttl lease r.body (code r) posted h in
    let (free, bound) =
      get_lease_exclusive e others key (some body) time s laws (answer-created e g created) in
    (
      same ∙ answer-body e g (get_lease-body e others key (some body) time no_response s),
      free,
      bound,
    )
