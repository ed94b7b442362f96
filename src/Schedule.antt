-- ===== src/Schedule.antt =====
-- `NewSchedule` (pkg/process/process.go): the commands that are run, with replicas expanded, and
-- the scrape targets of pkg/config/config.go.
pub mod Names
pub mod Targets
mod Examples
use process_wrapper.Prelude.{
  ℕ, zero, suc, ◌+◌, Bool, true, false, List, [], ◌∷◌, ◌++◌, none, Str, if◌then◌else◌,
  slice_contains, is_empty, codes, map,
}
use process_wrapper.Prelude.Int.{ℤ, pos, negsuc}
use process_wrapper.Prelude.Decimal.{decimal}
use process_wrapper.Command.{Command}
use process_wrapper.State.{PromTarget}

-- `fmt.Sprintf("%v_%v", name, r)`
unfoldable pub replica_name : Str → ℕ → Str
unfolding decimal
replica_name name r = name ++ (b'_' ∷ decimal r)

-- The copy of a command that replica `r` runs; the fields that the literal leaves out are zero.
unfoldable pub replica : Command → ℕ → Command
unfolding replica_name
replica c r = record {
  name = replica_name c.name r;
  entrypoint = c.entrypoint;
  args = c.args;
  envs = c.envs;
  envs_file = c.envs_file;
  restart_policy = [];
  readiness = c.readiness;
  log_format = c.log_format;
  dir = [];
  prom_target = [];
  sys_proc_attr = c.sys_proc_attr;
  replicas = pos 0;
  post_start = none;
  memory_limit_mb = c.memory_limit_mb;
}

-- The loop over `r`: `n` rounds are left.
unfoldable pub replicas_from : Command → ℕ → ℕ → List Command
unfolding replica
replicas_from c r zero = []
replicas_from c r (suc n) = replica c r ∷ replicas_from c (r + 1) n

abbrev pub expand : Command → ℤ → List Command
expand c (pos zero) = c ∷ []
expand c (pos (suc n)) = replicas_from c 0 (suc n)
expand c (negsuc n) = c ∷ []

-- The commands that `NewSchedule` starts, in order; each start is one `wg.Add(1)`.
unfoldable pub schedule : List Str → List Command → List Command
unfolding replicas_from slice_contains
schedule skip_commands [] = []
schedule skip_commands (c ∷ commands) =
    let rest = schedule skip_commands commands in
    if slice_contains skip_commands c.name then rest else expand c c.replicas ++ rest

-- `PromTargets`
unfoldable pub prom_targets : List Command → List PromTarget
prom_targets [] = []
prom_targets (c ∷ commands) =
    let rest = prom_targets commands in
    if is_empty c.prom_target
    then rest
    else record {
      name = c.name;
      url = c.prom_target;
      extra_labels = (codes "process_name=" ++ c.name) ∷ [];
    }
      ∷ rest
