-- ===== src/Main.antt =====
-- The main program: main.go. The package `flag`, files, variables and the clock are arguments.
pub mod Waits
pub mod Skips
mod Examples
use process_wrapper.Prelude.{
  ℕ, ◌==◌, Bool, true, false, not, List, [], ◌∷◌, ◌++◌, Option, none, some, Str, codes, split,
  is_empty, if◌then◌else◌,
}
use process_wrapper.Prelude.Int.{pos}
use process_wrapper.Prelude.Decimal.{decimal}
use process_wrapper.Clock.{Duration, seconds}
use process_wrapper.State.{State, PromTarget, new_state}
use process_wrapper.Action.{Action, sleep}
use process_wrapper.Command.{Command}
use process_wrapper.Schedule.{prom_targets}
use process_wrapper.Config.{Decoder, load_file, load_json_env}
use process_wrapper.Lease.{TlsFiles, endpoints, tls_files}
use process_wrapper.Wrapper.{Wrapper, started}

-- The variables that `initFlags` binds.
pub record Flags : Type 0 where
  pub config_path : Str
  pub skip_commands : Str
  pub readiness_file : Str
  pub pyroscope_url : Str
  pub shared_lock_url : Str
  pub debug : Bool
  pub wait : Bool
  pub shared_lock : Bool
  pub shared_lock_etcd_tls : Bool
  pub print_version : Bool
  pub envoy_drain : Bool
  pub prom_merge_empty_on_failure : Bool
  pub prom_merge_async : Bool
  pub prom_merge_sort : Bool
  pub prom_merge_omit_meta : Bool
  pub prom_merge_supress_errors : Bool
  pub wait_deadline : Duration
  pub graceful_shutdown_deadline : Duration

-- Their values without arguments.
abbrev pub default_flags : Flags
default_flags = record {
  config_path = [];
  skip_commands = [];
  readiness_file = codes "/tmp/started";
  pyroscope_url = [];
  shared_lock_url = codes "http://localhost:8191";
  debug = false;
  wait = false;
  shared_lock = false;
  shared_lock_etcd_tls = false;
  print_version = false;
  envoy_drain = false;
  prom_merge_empty_on_failure = false;
  prom_merge_async = true;
  prom_merge_sort = true;
  prom_merge_omit_meta = false;
  prom_merge_supress_errors = false;
  wait_deadline = seconds 120;
  graceful_shutdown_deadline = seconds 10;
}

-- What the program does: it waits for the readiness file, prints its version, serves locks, or wraps
-- processes. The last two are told whether the profiler was started.
pub data Mode : Type 0 where
  waits : Mode
  prints_version : Mode
  serves_locks : Bool → Mode
  wraps : Bool → Mode

-- `main`
unfoldable pub mode : Flags → Mode
mode f =
    let profiled = not (is_empty f.pyroscope_url) in
    if f.wait
    then waits
    else if f.print_version
    then prints_version
    else if f.shared_lock
    then serves_locks profiled
    else wraps profiled

-- One round of `WaitReadiness`: whether the timer has fired, and whether the file is there.
pub record WaitRound : Type 0 where
  pub fired : Bool
  pub exists : Bool

pub data Waited : Type 0 where
  still_waiting ready deadline_exceeded : Waited

abbrev before_wait : List Action → List Action × Waited → List Action × Waited
before_wait actions (rest, waited) = (actions ++ rest, waited)

unfoldable pub wait_readiness : List WaitRound → List Action × Waited
wait_readiness [] = ([], still_waiting)
wait_readiness (r ∷ rounds) =
    let rest = wait_readiness rounds in
    if r.fired
    then ([], deadline_exceeded)
    else if r.exists
    then ([], ready)
    else before_wait (sleep (pos 500000000) ∷ []) rest

-- The exit code of `main -wait`.
abbrev pub exit_code : Waited → Option ℕ
exit_code still_waiting = none
exit_code ready = some 0
exit_code deadline_exceeded = some 1

-- What `SharedLockServer` and `LeaseController` set the server up with.
pub record LockServer : Type 0 where
  pub socket : Str
  pub etcd_endpoints : List Str
  pub tls : Option TlsFiles

unfoldable pub shared_lock_server : (Str → Str) → Bool → LockServer
unfolding endpoints tls_files
shared_lock_server getenv tls =
    let socket = getenv (codes "SHARED_LEASE_SOCKET") in
    record {
      socket = if is_empty socket then codes ":8191" else socket;
      etcd_endpoints = endpoints (getenv (codes "SHARED_LEASE_ETCD_ENDPOINTS"));
      tls =
          tls_files tls (getenv (codes "SHARED_LEASE_ETCD_CA_CERT"))
            (getenv (codes "SHARED_LEASE_ETCD_CLIENT_CERT"))
            (getenv (codes "SHARED_LEASE_ETCD_CLIENT_KEY"));
    }

-- What `StartProcessWrapper` does before it waits: the contents of the file `pid`, the scrape targets,
-- and the wrapper.
pub record Startup : Type 0 where
  pub pid_file : Option Str
  pub targets : List PromTarget
  pub wrapper : Wrapper

-- The commands of the configuration; `none` is a `log.Fatalf`.
unfoldable pub load_commands :
    Flags → Decoder → Decoder → (Str → Option Str) → (Str → Str) → Option (List Command)
unfolding load_file load_json_env
load_commands f yaml json read_file getenv =
    if not (is_empty f.config_path)
    then load_file yaml (read_file f.config_path)
    else some (load_json_env json getenv)

abbrev startup : Flags → ℕ → List Command → Startup
startup f pid commands = record {
  pid_file = if pid == 1 then none else some (decimal pid);
  targets = prom_targets commands;
  wrapper =
      started (new_state f.readiness_file f.envoy_drain) (split b',' f.skip_commands) commands;
}

abbrev start_commands : Flags → ℕ → Option (List Command) → Option Startup
start_commands f pid none = none
start_commands f pid (some commands) = some (startup f pid commands)

-- `StartProcessWrapper`
unfoldable pub start_process_wrapper :
    Flags → ℕ → Decoder → Decoder → (Str → Option Str) → (Str → Str) → Option Startup
unfolding load_commands started prom_targets new_state split decimal
start_process_wrapper f pid yaml json read_file getenv =
    start_commands f pid (load_commands f yaml json read_file getenv)
