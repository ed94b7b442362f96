-- ===== src/Outside.antt =====
-- What the probes of pkg/process/probe_*.go ask of the outside, and what they keep between their runs.
use process_wrapper.Prelude.{ℕ, Bool, List, Option, Str}
use process_wrapper.Prelude.Int.{ℤ}
use process_wrapper.Clock.{Time}
use process_wrapper.Command.{ExecCommand}

pub data ExecOutcome : Type 0 where
  -- the ticker of 30 seconds fires first
  ticked : ExecOutcome
  exited : ℤ → ExecOutcome

-- The answers that one run of a probe gets from outside; `none` and `false` are errors.
pub record World : Type 0 where
  -- `time.Now`, at its successive calls
  pub clock : ℕ → Time
  -- the status code of `http.Get(url)`
  pub http_get : Str → Option ℕ
  -- the status code of `http.Post(url, "text/plain", body)`
  pub http_post : Str → Str → Option ℕ
  -- `net.DialTimeout("tcp", socket, 2 s)` connects
  pub dial : Str → Bool
  -- `os.Stat(path)` finds the file
  pub stat : Str → Bool
  pub getenv : Str → Str
  pub exec : ExecCommand → ExecOutcome
  -- `sql.Open("mysql", dsn)`, and `db.Query` over that handle: an error, or the rows, of which each is
  -- scanned as a text or not
  pub sql_open : Str → Bool
  pub db_query : Str → Str → Option (List (Option Str))
  -- `amqp.Dial(dsn)`, `connection.IsClosed()`, `connection.Close()`
  pub amqp_dial : Str → Bool
  pub amqp_is_closed : Bool
  pub amqp_close : Bool
  -- `fmt.Sprintf` with a template out of the environment and two arguments
  pub sprintf : Str → Str → Str → Str

-- What probes keep between their runs: the data source of the open sql handle, and whether an amqp
-- connection is held.
pub record Handles : Type 0 where
  pub db : Option Str
  pub connection : Bool
