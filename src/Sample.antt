-- ===== src/Sample.antt =====
-- Data for the tests: a command with probes, its environment, and answers from outside.
pub mod Hundredths
use process_wrapper.Prelude.{Bool, true, false, [], ◌∷◌, none, some, Str, codes}
use process_wrapper.Prelude.Int.{pos}
use process_wrapper.Clock.{Time, seconds}
use process_wrapper.State.{State, new_state}
use process_wrapper.Command.{Command, Probe, Hook, SqlHook, ExecCommand}
use process_wrapper.Outside.{World, Handles, exited}
use process_wrapper.Probes.{Target}
use process_wrapper.Hooks.{HookWorld}
use process_wrapper.Runner.{Setup}

abbrev pub web : Str
web = codes "web"

abbrev pub tcp_only : Probe
tcp_only = record {
  period = seconds 5;
  delay = seconds 5;
  startup_deadline = pos 0;
  failure_threshold = pos 2;
  http = none;
  tcp = some (record { socket = codes ":8122" });
  file = none;
  env = none;
  exec = none;
  sql = none;
  floating_pid = none;
  heart_beat = none;
  amqp = none;
  keep_shared_lock = none;
}

abbrev pub sleeper : ExecCommand
sleeper = record { entrypoint = codes "sleep"; args = codes "1" ∷ [] ∷ []; envs = [] }

abbrev pub warm_up : SqlHook
warm_up = record { queries = codes "q1" ∷ codes "q2" ∷ [] }

abbrev pub both_parts : Hook
both_parts = record { sql = some warm_up; command = some sleeper; deadline = pos 0 }

abbrev pub web_command : Command
web_command = record {
  name = web;
  entrypoint = codes "./web";
  args = [];
  envs = [];
  envs_file = [];
  restart_policy = [];
  readiness = some tcp_only;
  log_format = [];
  dir = [];
  prom_target = codes "http://localhost/metrics";
  sys_proc_attr = none;
  replicas = pos 0;
  post_start = none;
  memory_limit_mb = 0;
}

abbrev pub api_command : Command
api_command = record web_command { name = codes "api"; replicas = pos 2 }

abbrev pub fresh : State
fresh = new_state (codes "/tmp/started") false

-- Nothing answers, but what the arguments say: the clock and the TCP probe.
abbrev pub world_at : Time → Bool → World
world_at now up = record {
  clock = λ i. now;
  http_get = λ url. none;
  http_post = λ url body. none;
  dial = λ socket. up;
  stat = λ path. false;
  getenv = λ name. [];
  exec = λ c. exited (pos 1);
  sql_open = λ dsn. true;
  db_query = λ dsn q. some (some (codes "monolith") ∷ some (codes "payments") ∷ []);
  amqp_dial = λ dsn. true;
  amqp_is_closed = true;
  amqp_close = true;
  sprintf = λ template user pass. template;
}

abbrev pub no_handles : Handles
no_handles = record { db = none; connection = false }

abbrev pub hook_world : HookWorld
hook_world = record { sql_open = λ dsn. true; succeeds = λ deadline step. true }

abbrev pub web_target : Target
web_target = record { name = web; envs = []; shared_lock_url = codes "http://localhost:8191" }

abbrev pub web_setup : Setup
web_setup = record {
  target = web_target;
  probe = tcp_only;
  post_start = none;
  pid = 7;
  cancel_routines = 1;
}
