-- ===== src/Lease/Requests.antt =====
-- What /lease does with a request that lacks a method or a time to live
-- (pkg/lease/handlers/lease.go).
use process_wrapper.Prelude.{
  ℕ, ◌≡◌, refl, Bool, true, false, [], ◌++◌, Option, none, some, Str, arith, codes,
}
use process_wrapper.Prelude.Int.{ℤ, pos}
use process_wrapper.Clock.{Duration}
use process_wrapper.Http.{Response, no_response, code, write_header, write}
use process_wrapper.Lease.Exclusion.{after_get, get_lease-after_get}
use process_wrapper.Lease.{
  Etcd, answer, value_of, renew, after_create, after_grant, Request, Got, Others, get_lease,
  lease_ttl, whole_seconds, lease_handler,
}

-- A POST to /lease whose time to live is missing or cannot be parsed asks etcd for a lease of 0
-- seconds: the default is a duration of 10 nanoseconds.
pub lease_handler-default_ttl :
    (e : Etcd) (lease_key : Str → Str) (parse_duration : Str → Option Duration) (others : Others e)
    (q : Request) (s : e.Store)
    → q.is_post ≡ true
    → q.read_ok ≡ true
    → q.close_ok ≡ true
    → parse_duration q.ttl ≡ none
    → lease_handler e lease_key parse_duration others q s
      ≡ answer e (
          get_lease e others
            (codes "/shared-lock/" ++ lease_key q.body)
            (some q.body)
            (pos 0)
            no_response
            s)
unfolding lease_handler lease_ttl whole_seconds
lease_handler-default_ttl e lease_key parse_duration others q s post read close bad =
    let zero_seconds : whole_seconds (lease_ttl parse_duration q.ttl) ≡ pos 0 =
      rw (bad, lease_ttl, whole_seconds) in
    rw (post, read, close, zero_seconds)

renew-status :
    (e : Etcd) (r : Response) (id status : ℕ) (k : e.Store × Bool)
    → r.status ≡ some status
    → (renew e r id k).response.status ≡ some status
unfolding renew
renew-status e r id status (s, true) h = ground arith
renew-status e r id status (s, false) h = ground arith

after_create-status :
    (e : Etcd) (others : Others e) (r : Response) (id status : ℕ) (c : e.Store × Option Bool)
    → r.status ≡ some status
    → (after_create e others r id c).response.status ≡ some status
unfolding after_create
after_create-status e others r id status (s, none) h = h
after_create-status e others r id status (s, some false) h = ground arith
after_create-status e others r id status (s, some true) h = renew-status e r id status _ h

after_grant-status :
    (e : Etcd) (others : Others e) (key value : Str) (r : Response) (status : ℕ)
    (g : e.Store × Option ℕ)
    → r.status ≡ some status
    → (after_grant e others key value r g).response.status ≡ some status
unfolding after_grant
after_grant-status e others key value r status (s, none) h = ground arith
after_grant-status e others key value r status (s, some id) h =
    after_create-status e others r id status _ h

after_get-status :
    (e : Etcd) (others : Others e) (key value : Str) (ttl : ℤ) (r : Response) (s : e.Store)
    (status : ℕ) (found : Option Bool)
    → r.status ≡ some status
    → (after_get e others key value ttl r s found).response.status ≡ some status
unfolding write_header
after_get-status e others key value ttl r s status none h = h
after_get-status e others key value ttl r s status (some true) h = ground arith
after_get-status e others key value ttl r s status (some false) h =
    after_grant-status e others key value r status _ h

-- The calls of etcd do not depend on what has been answered so far.
renew-store :
    (e : Etcd) (r r' : Response) (id : ℕ) (k : e.Store × Bool)
    → (renew e r id k).store ≡ (renew e r' id k).store
unfolding renew
renew-store e r r' id (s, true) = refl
renew-store e r r' id (s, false) = refl

after_create-store :
    (e : Etcd) (others : Others e) (r r' : Response) (id : ℕ) (c : e.Store × Option Bool)
    → (after_create e others r id c).store ≡ (after_create e others r' id c).store
unfolding after_create
after_create-store e others r r' id (s, none) = refl
after_create-store e others r r' id (s, some false) = refl
after_create-store e others r r' id (s, some true) =
    renew-store e r r' id (e.keep_alive (pos id) (others 2 s))

after_grant-store :
    (e : Etcd) (others : Others e) (key value : Str) (r r' : Response) (g : e.Store × Option ℕ)
    → (after_grant e others key value r g).store ≡ (after_grant e others key value r' g).store
unfolding after_grant
after_grant-store e others key value r r' (s, none) = refl
after_grant-store e others key value r r' (s, some id) =
    after_create-store e others r r' id (e.create key value id (others 1 s))

after_get-store :
    (e : Etcd) (others : Others e) (key value : Str) (ttl : ℤ) (r r' : Response) (s : e.Store)
    (found : Option Bool)
    → (after_get e others key value ttl r s found).store
      ≡ (after_get e others key value ttl r' s found).store
after_get-store e others key value ttl r r' s none = refl
after_get-store e others key value ttl r r' s (some true) = refl
after_get-store e others key value ttl r r' s (some false) =
    after_grant-store e others key value r r' (e.grant ttl (others 0 s))

code-answer :
    (e : Etcd) (g : Got e.Store) (status : ℕ)
    → g.response.status ≡ some status
    → code (answer e g).0 ≡ status
unfolding write write_header
code-answer e g status h = ground arith

-- A request to /lease by another method than POST is answered 400, and yet the handler goes on: it
-- makes on etcd the same calls as for an empty body, and may create the key of the prefix alone.
pub lease_handler-other_method :
    (e : Etcd) (lease_key : Str → Str) (parse_duration : Str → Option Duration) (others : Others e)
    (q : Request) (s : e.Store)
    → q.is_post ≡ false
    → (code (lease_handler e lease_key parse_duration others q s).0 ≡ 400)
      × ((lease_handler e lease_key parse_duration others q s).1
          ≡ (get_lease e others
              (codes "/shared-lock/" ++ lease_key [])
              none
              (whole_seconds (lease_ttl parse_duration q.ttl))
              no_response
              s).store)
unfolding lease_handler
lease_handler-other_method e lease_key parse_duration others q s h =
    let key = codes "/shared-lock/" ++ lease_key [] in
    let ttl = whole_seconds (lease_ttl parse_duration q.ttl) in
    let refused = write_header 400 no_response in
    let same = get_lease-after_get e others key none ttl refused s in
    let same' = get_lease-after_get e others key none ttl no_response s in
    rw h (
      code-answer e (get_lease e others key none ttl refused s) 400 (
          rw same (
            after_get-status e others key (value_of none) ttl refused s 400 (e.get key s)
              (unfold write_header in refl))),
      rw (same, same')
          (after_get-store e others key (value_of none) ttl refused no_response s (e.get key s)),
    )
