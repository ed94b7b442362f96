-- ===== src/Lease.antt =====
-- The shared lock server: pkg/lease/handlers/lease.go and pkg/lease/lock/lock.go. The etcd client, the
-- JSON codec and `time.ParseDuration` are parameters.
pub mod Exclusion
pub mod KeepAlive
pub mod Mutual
pub mod Requests
pub mod OneKey
mod Examples
use process_wrapper.Prelude.{
  ◌≡◌, ℕ, suc, ◌/◌, Bool, true, false, List, [], ◌∷◌, ◌++◌, Option, none, some, Str, if◌then◌else◌,
  is_empty, codes, split, contains_byte,
}
use process_wrapper.Prelude.Int.{ℤ, pos, negsuc, sub_ℕ}
use process_wrapper.Prelude.Decimal.{decimal, parse_int}
use process_wrapper.Clock.{Duration, nanos}
use process_wrapper.Http.{Response, no_response, write_header, write}

-- What the server relies on of etcd. `holder` is the lease that a key is bound to.
pub record Etcd : Type 1 where
  pub Store : Type 0
  -- `Get`: an error, or whether the key is there
  pub get : Str → Store → Option Bool
  -- `Grant` with a time to live in seconds: an error, or a new lease
  pub grant : ℤ → Store → Store × Option ℕ
  -- the transaction that puts the key, bound to a lease, if it was never created: an error, or
  -- whether its condition held
  pub create : Str → Str → ℕ → Store → Store × Option Bool
  -- `KeepAliveOnce`: whether the lease could be renewed
  pub keep_alive : ℤ → Store → Store × Bool
  pub holder : Str → Store → Option ℕ

-- The documented effect of a transaction on the creation revision of its key.
pub record IsTransactional (e : Etcd) : Type 0 where
  pub was_free :
      (k v : Str) (id : ℕ) (s : e.Store) → (e.create k v id s).1 ≡ some true → e.holder k s ≡ none
  pub is_bound :
      (k v : Str) (id : ℕ) (s : e.Store)
      → (e.create k v id s).1 ≡ some true
      → e.holder k (e.create k v id s).0 ≡ some id

pub record Request : Type 0 where
  pub is_post : Bool
  -- what is read of the body, and whether reading and closing it succeed
  pub body : Str
  pub read_ok : Bool
  pub close_ok : Bool
  -- the header `x-lease-ttl`
  pub ttl : Str

-- `readHTTPBody`: the data, nil for another method than POST.
unfoldable pub read_http_body : Request → Response → Option Str × Response
unfolding write_header
read_http_body q r =
    if q.is_post
    then (let r1 = if q.read_ok then r else write_header 500 r in
        (some q.body, if q.close_ok then r1 else write_header 500 r1))
    else (none, write_header 400 r)

abbrev pub default_lease_value : Str
default_lease_value = codes "lock-value"

-- `int64(d.Seconds())`: whole seconds, towards zero. (From 2^24 seconds on, `Seconds` may round up.)
unfoldable pub whole_seconds : Duration → ℤ
whole_seconds (pos d) = pos (d / nanos)
whole_seconds (negsuc d) = sub_ℕ 0 (suc d / nanos)

-- The time to live of a request; the default is the constant 10 taken as a `time.Duration`.
unfoldable pub lease_ttl : (Str → Option Duration) → Str → Duration
lease_ttl parse_duration header = elim (parse_duration header) [ none ↦ pos 10 | some d ↦ d ]

abbrev pub value_of : Option Str → Str
value_of none = default_lease_value
value_of (some text) = text

abbrev pub text_of : Option Str → Str
text_of none = []
text_of (some text) = text

-- The result of `GetLease`: whether it is an error, the lease, the response so far and the store.
pub record Got (S : Type 0) : Type 0 where
  pub failed : Bool
  pub lease : ℕ
  pub response : Response
  pub store : S

module _ (e : Etcd) where
  -- What other clients of etcd do between two calls of one handler.
  abbrev pub Others : Type 0
  Others = ℕ → e.Store → e.Store

  abbrev result : Bool → ℕ → Response → e.Store → Got e.Store
  result failed lease response store = record {
    failed = failed;
    lease = lease;
    response = response;
    store = store;
  }

  -- "Renew a lease"
  unfoldable pub renew : Response → ℕ → e.Store × Bool → Got e.Store
  unfolding write_header
  renew r id (s, true) = result false id (write_header 201 r) s
  renew r id (s, false) = result true 0 (write_header 500 r) s

  -- After the transaction.
  unfoldable pub after_create : Others → Response → ℕ → e.Store × Option Bool → Got e.Store
  unfolding write_header renew
  after_create others r id (s, none) = result true 0 r s
  after_create others r id (s, some false) = result false 0 (write_header 202 r) s
  after_create others r id (s, some true) = renew r id (e.keep_alive (pos id) (others 2 s))

  -- After the grant.
  unfoldable pub after_grant : Others → Str → Str → Response → e.Store × Option ℕ → Got e.Store
  unfolding write_header after_create
  after_grant others key value r (s, none) = result true 0 (write_header 500 r) s
  after_grant others key value r (s, some id) =
      after_create others r id (e.create key value id (others 1 s))

  -- `GetLease`
  unfoldable pub get_lease : Others → Str → Option Str → ℤ → Response → e.Store → Got e.Store
  unfolding write_header after_grant
  get_lease others key body ttl r s = elim (e.get key s) [
    | none ↦ result true 0 r s
    | some true ↦ result false 0 (write_header 202 r) s
    | some false ↦ after_grant others key (value_of body) r (e.grant ttl (others 0 s))
  ]

  abbrev pub answer : Got e.Store → Response × e.Store
  answer g = (
    write (decimal g.lease) (if g.failed then write_header 500 g.response else g.response),
    g.store,
  )

  -- The handler of /lease. `lease_key` is the key that unmarshalling a body leaves.
  unfoldable pub lease_handler :
      (Str → Str) → (Str → Option Duration) → Others → Request → e.Store → Response × e.Store
  unfolding read_http_body write write_header
  lease_handler lease_key parse_duration others q s =
      let (data_, r) = read_http_body q no_response in
      answer (
        get_lease others (codes "/shared-lock/" ++ lease_key (text_of data_)) data_
          (whole_seconds (lease_ttl parse_duration q.ttl)) r s)

  -- The handler of /keepalive.
  unfoldable pub keep_alive_handler : Request → e.Store → Response × e.Store
  unfolding read_http_body parse_int write_header
  keep_alive_handler q s =
      let (data_, r) = read_http_body q no_response in
      let (id, parsed) = parse_int (text_of data_) in
      let r1 = if parsed then r else write_header 500 r in
      let (s', renewed) = e.keep_alive id s in (if renewed then r1 else write_header 204 r1, s')

-- The endpoints that `NewLock` connects to.
unfoldable pub endpoints : Str → List Str
unfolding split contains_byte
endpoints etcd_endpoints =
    if contains_byte b',' etcd_endpoints
    then split b',' etcd_endpoints
    else if is_empty etcd_endpoints
    then codes "localhost:2379" ∷ []
    else etcd_endpoints ∷ []

pub record TlsFiles : Type 0 where
  pub ca_file : Str
  pub cert_file : Str
  pub key_file : Str

-- The files of `transport.TLSInfo`: all three defaults hang on the path of the CA certificate.
unfoldable pub tls_files : Bool → Str → Str → Str → Option TlsFiles
tls_files tls ca cert key =
    if tls
    then some (record {
      ca_file = if is_empty ca then codes "/cert/tls/ca.crt" else ca;
      cert_file = if is_empty ca then codes "/cert/tls/tls.crt" else cert;
      key_file = if is_empty ca then codes "/cert/tls/tls.key" else key;
    })
    else none
