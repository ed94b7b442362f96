-- ===== src/Command.antt =====
-- The configuration of a process: `Command`, `Probe` and `Hook` (pkg/process/process.go, hook.go and
-- the probe_*.go files). A pointer that may be nil is an `Option`.
use process_wrapper.Prelude.{ℕ, Bool, ◌&&◌, not, List, [], ◌∷◌, ◌++◌, Option, Str, is_some}
use process_wrapper.Prelude.Int.{ℤ}
use process_wrapper.Prelude.Dict.{Dict}
use process_wrapper.Clock.{Duration}

pub record HttpProbe : Type 0 where
  pub url : Str

pub record TcpProbe : Type 0 where
  pub socket : Str

pub record FileProbe : Type 0 where
  pub path : Str

pub record EnvProbe : Type 0 where
  pub name : Str
  pub value : Str

-- The fields of a `Command` that an exec probe and a command hook read. (A `Hook` holds a whole
-- `Command`, whose other fields are not used there.)
pub record ExecCommand : Type 0 where
  pub entrypoint : Str
  pub args : List Str
  pub envs : Dict Str

pub record ExecProbe : Type 0 where
  pub command : ExecCommand

pub record SqlProbe : Type 0 where
  pub queries : List Str
  pub contains : List Str

pub record FloatingPid : Type 0 where
  pub period : Duration
  pub threshold : ℤ

pub record HeartBeat : Type 0 where
  pub period : Duration

pub record AmqpProbe : Type 0 where
  pub reuse_conn : Bool

pub record LockProbe : Type 0 where
  pub lease : Str
  pub ttl_duration : Str

pub record Probe : Type 0 where
  pub period : Duration
  pub delay : Duration
  pub startup_deadline : Duration
  pub failure_threshold : ℤ
  pub http : Option HttpProbe
  pub tcp : Option TcpProbe
  pub file : Option FileProbe
  pub env : Option EnvProbe
  pub exec : Option ExecProbe
  pub sql : Option SqlProbe
  pub floating_pid : Option FloatingPid
  pub heart_beat : Option HeartBeat
  pub amqp : Option AmqpProbe
  pub keep_shared_lock : Option LockProbe

-- `ProbesUndefined`
unfoldable pub probes_undefined : Probe → Bool
probes_undefined p =
    not (is_some p.tcp)
    && not (is_some p.http)
    && not (is_some p.file)
    && not (is_some p.env)
    && not (is_some p.exec)
    && not (is_some p.sql)
    && not (is_some p.floating_pid)
    && not (is_some p.heart_beat)
    && not (is_some p.amqp)
    && not (is_some p.keep_shared_lock)

pub record SqlHook : Type 0 where
  pub queries : List Str

pub record Hook : Type 0 where
  pub sql : Option SqlHook
  pub command : Option ExecCommand
  pub deadline : Duration

-- `SysProcAttr` is a value of the package syscall, named by a number. A memory limit is counted in
-- millionths of its unit, that is in bytes.
pub record Command : Type 0 where
  pub name : Str
  pub entrypoint : Str
  pub args : List Str
  pub envs : Dict Str
  pub envs_file : Str
  pub restart_policy : Str
  pub readiness : Option Probe
  pub log_format : Str
  pub dir : Str
  pub prom_target : Str
  pub sys_proc_attr : Option ℕ
  pub replicas : ℤ
  pub post_start : Option Hook
  pub memory_limit_mb : ℕ

-- `String`: the entrypoint and the arguments, with a blank before each.
abbrev pub join_args : Str → List Str → Str
join_args cmd [] = cmd
join_args cmd (arg ∷ args) = join_args (cmd ++ (b' ' ∷ arg)) args

unfoldable pub to_string : Command → Str
to_string c = join_args c.entrypoint c.args
