-- ===== src/Preemption/Requests.antt =====
-- The requests of the check for preemption: `GetMetadataClient`, `GetMetadataRequest` and
-- `DrainEnvoyListeners` of pkg/process/health.go. The package net/http and the environment are
-- arguments.
use process_wrapper.Prelude.{
  ◌≡◌, refl, Bool, true, List, [], ◌∷◌, ◌++◌, Option, none, some, Str, codes, is_empty,
  if◌then◌else◌, ap, ◌∙◌, arith,
}

abbrev default_metadata_url : Str
default_metadata_url =
    codes "http://metadata.google.internal/computeMetadata/v1/instance/preempted"
    ++ codes "?wait_for_change=true&timeout_sec=60"

abbrev default_envoy_admin_url : Str
default_envoy_admin_url = codes "http://localhost:15000/drain_listeners"

-- The variables `metaHTTPClient` and `metadataRequest`: whether there is a client, and the address of
-- the request.
pub record MetadataCache : Type 0 where
  pub has_client : Bool
  pub request : Option Str

unfoldable pub get_metadata_client : MetadataCache → MetadataCache
get_metadata_client cache = if cache.has_client then cache else record cache { has_client = true }

-- `http.NewRequest` makes a request for an address or fails; in both cases its result is stored.
abbrev new_request : (Str → Bool) → Str → Option Str
new_request valid url = if valid url then some url else none

abbrev metadata_url : (Str → Str) → Str
metadata_url getenv =
    let url = getenv (codes "METADATA_URL") in if is_empty url then default_metadata_url else url

-- The request, if there is no error, and the variables afterwards.
unfoldable pub get_metadata_request :
    (Str → Bool) → (Str → Str) → MetadataCache → Option Str × MetadataCache
get_metadata_request valid getenv cache = elim cache.request [
  | some url ↦ (some url, cache)
  | none ↦
      let request = new_request valid (metadata_url getenv) in
      (request, record cache { request = request })
]

-- The rounds of `WaitPreemptionState`, each with the environment that it meets: what each asks for.
unfoldable pub metadata_requests :
    (Str → Bool) → List (Str → Str) → MetadataCache → List (Option Str)
unfolding get_metadata_client get_metadata_request
metadata_requests valid [] cache = []
metadata_requests valid (getenv ∷ rounds) cache =
    let (request, cache') = get_metadata_request valid getenv (get_metadata_client cache) in
    request ∷ metadata_requests valid rounds cache'

-- What the HTTP client does with a POST to an address: an error, or a body, whose reading may fail.
pub record Envoy : Type 0 where
  pub valid : Str → Bool
  pub post : Str → Option (Option Str)

pub data Drained : Type 0 where
  disabled not_prepared not_sent unread : Drained
  drained : Str → Drained

abbrev envoy_url : (Str → Str) → Str
envoy_url getenv =
    let url = getenv (codes "ENVOY_DRAIN_URL") in
    if is_empty url then default_envoy_admin_url else url

abbrev after_post : Option (Option Str) → Drained
after_post none = not_sent
after_post (some none) = unread
after_post (some (some body)) = drained body

-- `DrainEnvoyListeners`: the addresses that it posts to, and how it ends.
unfoldable pub drain_envoy_listeners : Envoy → (Str → Str) → Bool → List Str × Drained
drain_envoy_listeners envoy getenv envoy_drain =
    let url = envoy_url getenv in
    if envoy_drain
    then (if envoy.valid url then (url ∷ [], after_post (envoy.post url)) else ([], not_prepared))
    else ([], disabled)

abbrev repeated : Option Str → List (Str → Str) → List (Option Str)
repeated request [] = []
repeated request (getenv ∷ rounds) = request ∷ repeated request rounds

client-request : (cache : MetadataCache) → (get_metadata_client cache).request ≡ cache.request
unfolding get_metadata_client
client-request cache = ground arith

request-cached :
    (valid : Str → Bool) (getenv : Str → Str) (cache : MetadataCache) (url : Str)
    → cache.request ≡ some url
    → get_metadata_request valid getenv cache ≡ (some url, cache)
unfolding get_metadata_request
request-cached valid getenv cache url h = simp (get_metadata_request, h)

-- Once the request has been built it is the same in every round, whatever becomes of the variable
-- METADATA_URL.
requests-cached :
    (valid : Str → Bool) (rounds : List (Str → Str)) (cache : MetadataCache) (url : Str)
    → cache.request ≡ some url
    → metadata_requests valid rounds cache ≡ repeated (some url) rounds
unfolding metadata_requests
requests-cached valid [] cache url h = refl
requests-cached valid (getenv ∷ rounds) cache url h =
    let known = client-request cache ∙ h in
    rw (request-cached valid getenv (get_metadata_client cache) url known) (
      ap (λ rs. some url ∷ rs) (requests-cached valid rounds (get_metadata_client cache) url known))
