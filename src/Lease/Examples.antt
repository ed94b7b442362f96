-- ===== src/Lease/Examples.antt =====
-- Tests of the shared lock server, over an etcd with one key.
use process_wrapper.Prelude.{◌≡◌, ◌≢◌, refl, true, [], none, some, Str, codes, arith}
use process_wrapper.Prelude.Int.{pos}
use process_wrapper.Prelude.Decimal.{decimal, parse_int}
use process_wrapper.Command.{LockProbe}
use process_wrapper.Outside.{World}
use process_wrapper.Probes.{run_lock}
use process_wrapper.Http.{no_response, code}
use process_wrapper.Lease.{Others, Request, get_lease, keep_alive_handler}
use process_wrapper.Lease.KeepAlive.{run_lock-keep_alive, run_lock-unparsed}
use process_wrapper.Lease.Mutual.{got, get_lease-refused}
use process_wrapper.Lease.OneKey.{etcd-IsKeeping, OneKey, etcd, etcd-IsTransactional, idle, free}
use process_wrapper.Sample.{world_at}

created : code (get_lease etcd idle (codes "k") none (pos 2) no_response free).response ≡ 201
unfolding get_lease
created = refl

abbrev post : Str → Request
post body = record { is_post = true; body = body; read_ok = true; close_ok = true; ttl = [] }

abbrev bound : OneKey
bound = record { bound = some 5; next = 6 }

abbrev url : Str
url = codes "http://localhost:8191"

-- A network over which the keep-alive handler answers.
abbrev served : World
served = record (world_at 7 true) {
  http_post = λ u body. some (code (keep_alive_handler etcd (post body) bound).0);
}

abbrev probe_of : Str → LockProbe
probe_of lease = record { lease = lease; ttl_duration = codes "2s" }

run_lock-keep_alive_example : run_lock served url (probe_of (decimal 5)) ≡ true
run_lock-keep_alive_example =
    run_lock-keep_alive etcd (post (decimal 5)) bound 5 served url (probe_of (decimal 5))
      (refl, refl, refl) (omega arith) refl refl refl

run_lock-unparsed_example : run_lock served url (probe_of []) ≡ true
run_lock-unparsed_example =
    run_lock-unparsed etcd (post []) bound served url (probe_of []) (refl, refl, refl)
      (unfold parse_int in refl) refl refl

-- Another client asks for a lease in between.
abbrev busy : Others etcd
busy i s = (etcd.grant (pos 1) s).0

get_lease-refused_example :
    code
      (got etcd busy
        (codes "k")
        (some (codes "other"))
        (pos 3)
        (busy 0 (got etcd idle (codes "k") none (pos 2) free).store)).response
    ≢ 201
get_lease-refused_example =
    get_lease-refused etcd idle busy (busy 0) (codes "k") none (some (codes "other")) (pos 2)
      (pos 3) free etcd-IsTransactional etcd-IsKeeping created (λ s h. h) (λ s h. h) (λ i s h. h)
