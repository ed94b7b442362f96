-- ===== src/Probes.antt =====
-- The probes: the `Run` methods of pkg/process/probe_*.go. What they ask of the network, the file
-- system, child processes and databases is a `World`.
pub mod Verdicts
mod Examples
use process_wrapper.Prelude.{
  ℕ, ◌+◌, Bool, true, false, ◌&&◌, not, List, [], ◌∷◌, ◌++◌, Option, none, some, Str, is_some, ltb,
  leb, ◌==◌, if◌then◌else◌, is_empty, codes, slice_contains, str_eq,
}
use process_wrapper.Prelude.Int.{ℤ, pos, leb_ℤ, ltb_ℤ, is_zero}
use process_wrapper.Prelude.Dict.{Dict, lookup}
use process_wrapper.Clock.{Time, Duration, seconds, sub}
use process_wrapper.State.{State, num_of_restarts, get_heart_beat}
use process_wrapper.Outside.{ticked, exited, World, Handles}
use process_wrapper.Command.{
  HttpProbe, TcpProbe, FileProbe, EnvProbe, ExecCommand, ExecProbe, SqlProbe, FloatingPid,
  HeartBeat, AmqpProbe, LockProbe, Probe,
}

unfoldable pub run_http : World → HttpProbe → Bool
run_http w p = elim (w.http_get p.url) [ none ↦ false | some code ↦ ltb code 299 ]

unfoldable pub run_tcp : World → TcpProbe → Bool
run_tcp w p = w.dial p.socket

unfoldable pub run_file : World → FileProbe → Bool
run_file w p = w.stat p.path

unfoldable pub run_env : World → EnvProbe → Bool
unfolding str_eq
run_env w p = str_eq (w.getenv p.name) p.value

unfoldable pub run_exec : World → ExecProbe → Bool
run_exec w p = elim (w.exec p.command) [ ticked ↦ false | exited code ↦ is_zero code ]

-- `NewDBConnect`: a handle is opened once and kept.
unfoldable pub new_db_connect : World → Str → Option Str → Option Str
new_db_connect w dsn (some open_dsn) = some open_dsn
new_db_connect w dsn none = if w.sql_open dsn then some dsn else none

abbrev pub contains_all : List Str → List Str → Bool
contains_all list [] = true
contains_all list (e ∷ es) =
    let rest = contains_all list es in if slice_contains list e then rest else false

-- The loop over the results, which ends at the first row that cannot be scanned.
unfoldable pub scan_rows : List (Option Str) → Option (List Str)
scan_rows [] = some []
scan_rows (none ∷ results) = none
scan_rows (some r ∷ results) = elim (scan_rows results) [
  | none ↦ none
  | some list ↦ some (r ∷ list)
]

-- `SQLQuery`
unfoldable pub sql_query : World → Str → Str → Option (List Str)
unfolding scan_rows
sql_query w dsn query = elim (w.db_query dsn query) [
  | none ↦ none
  | some results ↦ scan_rows results
]

-- The rows that are tested after a query; a failed query leaves none.
abbrev pub rows : Option (List Str) → List Str
rows none = []
rows (some list) = list

unfoldable pub run_queries : World → Str → List Str → List Str → Bool
unfolding slice_contains sql_query
run_queries w dsn contains [] = true
run_queries w dsn contains (query ∷ queries) =
    let rest = run_queries w dsn contains queries in
    if contains_all (rows (sql_query w dsn query)) contains then rest else false

abbrev pub mysql_dsn : Str
mysql_dsn = codes "MYSQL_DSN"

-- The data source, if it is set and not empty.
unfoldable pub data_source : Dict Str → Option Str
unfolding lookup
data_source envs = elim (lookup mysql_dsn envs) [
  | none ↦ none
  | some dsn ↦ if is_empty dsn then none else some dsn
]

unfoldable pub run_sql : World → Dict Str → SqlProbe → Handles → Bool × Handles
unfolding data_source new_db_connect run_queries
run_sql w envs p h = elim (data_source envs) [
  | none ↦ (false, h)
  | some dsn ↦ elim (new_db_connect w dsn h.db) [
    | none ↦ (false, h)
    | some db ↦ (run_queries w db p.contains p.queries, record h { db = some db })
  ]
]

abbrev default_floating_pid_period : Duration
default_floating_pid_period = seconds 10

abbrev default_floating_pid_threshold : ℤ
default_floating_pid_threshold = pos 1

unfoldable pub run_floating_pid : World → State → Str → FloatingPid → Bool
run_floating_pid w s name p =
    let period = if is_zero p.period then default_floating_pid_period else p.period in
    let threshold = if is_zero p.threshold then default_floating_pid_threshold else p.threshold in
    leb_ℤ (pos (num_of_restarts w.clock period name s)) threshold

unfoldable pub run_heart_beat : World → State → Str → HeartBeat → Bool
run_heart_beat w s name p = not (ltb_ℤ p.period (sub (w.clock 0) (get_heart_beat name s)))

abbrev amqp_template : Str
amqp_template = codes "AMQP_PROBE_RABBITMQ_DSN_TEMPLATE"

abbrev amqp_user : Str
amqp_user = codes "AMQP_PROBE_RABBITMQ_USER"

abbrev amqp_pass : Str
amqp_pass = codes "AMQP_PROBE_RABBITMQ_PASS"

-- `DSN`. (Where a variable is missing it first logs through a field that is nil; what the logger does
-- there is left out.)
unfoldable pub amqp_dsn : World → Dict Str → Option Str
unfolding lookup
amqp_dsn w envs = elim (lookup amqp_template envs) [
  | none ↦ none
  | some template ↦ elim (lookup amqp_user envs) [
    | none ↦ none
    | some user ↦ elim (lookup amqp_pass envs) [
      | none ↦ none
      | some pass ↦ some (w.sprintf template user pass)
    ]
  ]
]

-- A connection that has just been dialled.
abbrev keep_or_close : World → AmqpProbe → Handles → Bool × Handles
keep_or_close w p h =
    if p.reuse_conn
    then (true, record h { connection = true })
    else (if w.amqp_close
        then (true, record h { connection = false })
        else (false, record h { connection = true }))

unfoldable pub run_amqp : World → Dict Str → AmqpProbe → Handles → Bool × Handles
unfolding amqp_dsn
run_amqp w envs p h =
    if h.connection
    then (if w.amqp_is_closed then (false, record h { connection = false }) else (true, h))
    else elim (amqp_dsn w envs) [
      | none ↦ (false, h)
      | some dsn ↦ if w.amqp_dial dsn then keep_or_close w p h else (false, h)
    ]

abbrev pub keep_alive_endpoint : Str
keep_alive_endpoint = codes "/keepalive"

abbrev pub status_no_content : ℕ
status_no_content = 204

unfoldable pub run_lock : World → Str → LockProbe → Bool
run_lock w shared_lock_url p = elim (w.http_post (shared_lock_url ++ keep_alive_endpoint) p.lease) [
  | none ↦ false
  | some code ↦ not (code == status_no_content)
]

-- The interface `Health`.
pub data Health : Type 0 where
  http : HttpProbe → Health
  tcp : TcpProbe → Health
  file : FileProbe → Health
  env : EnvProbe → Health
  exec : ExecProbe → Health
  sql : SqlProbe → Health
  floating_pid : FloatingPid → Health
  heart_beat : HeartBeat → Health
  amqp : AmqpProbe → Health
  lock : LockProbe → Health

-- What a run of a process passes to its probes: its name, its merged environment, and the shared
-- lock server.
pub record Target : Type 0 where
  pub name : Str
  pub envs : Dict Str
  pub shared_lock_url : Str

unfoldable pub run_health : World → State → Target → Health → Handles → Bool × Handles
unfolding run_http run_tcp run_file run_env run_exec run_sql run_floating_pid run_heart_beat
    run_amqp run_lock
run_health w s t (http p) h = (run_http w p, h)
run_health w s t (tcp p) h = (run_tcp w p, h)
run_health w s t (file p) h = (run_file w p, h)
run_health w s t (env p) h = (run_env w p, h)
run_health w s t (exec p) h = (run_exec w p, h)
run_health w s t (sql p) h = run_sql w t.envs p h
run_health w s t (floating_pid p) h = (run_floating_pid w s t.name p, h)
run_health w s t (heart_beat p) h = (run_heart_beat w s t.name p, h)
run_health w s t (amqp p) h = run_amqp w t.envs p h
run_health w s t (lock p) h = (run_lock w t.shared_lock_url p, h)

abbrev pub listed {ℓ} : {A : Type ℓ} → (A → Health) → Option A → List Health
listed f none = []
listed f (some p) = f p ∷ []

-- The probes that `ProbeRunner` runs, in its order.
unfoldable pub configured : Probe → List Health
configured p =
    listed http p.http
    ++ listed tcp p.tcp
    ++ listed file p.file
    ++ listed env p.env
    ++ listed exec p.exec
    ++ listed sql p.sql
    ++ listed floating_pid p.floating_pid
    ++ listed heart_beat p.heart_beat
    ++ listed amqp p.amqp
    ++ listed lock p.keep_shared_lock

-- One round of `ProbeRunner` over them: probe `i` meets the world and the shared state as they are
-- then.
unfoldable pub run_probes :
    (ℕ → World) → (ℕ → State) → Target → ℕ → List Health → Handles → List Bool × Handles
unfolding run_health
run_probes ws ss t i [] h = ([], h)
run_probes ws ss t i (p ∷ ps) h =
    let (status, h') = run_health (ws i) (ss i) t p h in
    let (statuses, h'') = run_probes ws ss t (i + 1) ps h' in (status ∷ statuses, h'')
