-- ===== src/Hooks.antt =====
-- Post-start hooks: `Hook.Run`, `SQLHook.RunHook` and `Command.RunHook` of pkg/process/hook.go.
pub mod Effects
mod Examples
use process_wrapper.Prelude.{
  Bool, true, false, ◌&&◌, List, [], ◌∷◌, ◌++◌, Option, none, some, Str, if◌then◌else◌, is_empty,
}
use process_wrapper.Prelude.Int.{is_zero}
use process_wrapper.Prelude.Dict.{Dict}
use process_wrapper.Clock.{Duration, seconds}
use process_wrapper.Command.{ExecCommand, SqlHook, Hook}
use process_wrapper.Probes.{data_source}

-- What a hook does outside: a query over the handle of a data source, or a program with its
-- arguments and environment, each under the hook's deadline.
pub data Step : Type 0 where
  query : Str → Str → Step
  program : Str → List Str → Dict Str → Step

-- Whether `sql.Open` succeeds, and whether a step succeeds within a deadline.
pub record HookWorld : Type 0 where
  pub sql_open : Str → Bool
  pub succeeds : Duration → Step → Bool

-- The verdict of a hook, and the steps that it took.
abbrev pub Outcome : Type 0
Outcome = Bool × List Step

-- The loop over the queries: it ends at the first that fails.
unfoldable pub run_queries : HookWorld → Duration → Str → List Str → Outcome
run_queries w deadline dsn [] = (true, [])
run_queries w deadline dsn (q ∷ queries) =
    let (verdict, steps) = run_queries w deadline dsn queries in
    if w.succeeds deadline (query dsn q)
    then (verdict, query dsn q ∷ steps)
    else (false, query dsn q ∷ [])

unfoldable pub run_sql_hook : HookWorld → Duration → Dict Str → SqlHook → Outcome
unfolding run_queries data_source
run_sql_hook w deadline envs h = elim (data_source envs) [
  | none ↦ (false, [])
  | some dsn ↦ if w.sql_open dsn then run_queries w deadline dsn h.queries else (false, [])
]

-- `validateArgs`: empty arguments are left out.
unfoldable pub validate_args : List Str → List Str
validate_args [] = []
validate_args (arg ∷ args) =
    let rest = validate_args args in if is_empty arg then rest else arg ∷ rest

unfoldable pub run_command_hook : HookWorld → Duration → Dict Str → ExecCommand → Outcome
unfolding validate_args
run_command_hook w deadline envs c =
    let step = program c.entrypoint (validate_args c.args) envs in
    (w.succeeds deadline step, step ∷ [])

abbrev pub default_hook_deadline : Duration
default_hook_deadline = seconds 30

-- The statuses of the parts that a hook has, in order, and their steps.
abbrev optional {ℓ} : {A : Type ℓ} → (A → Outcome) → Option A → List Outcome
optional run none = []
optional run (some a) = run a ∷ []

abbrev all_pass : List Outcome → Outcome
all_pass [] = (true, [])
all_pass ((verdict, steps) ∷ rest) =
    let (verdict', steps') = all_pass rest in (if verdict then verdict' else false, steps ++ steps')

-- A missing hook succeeds. Both parts run, also where the first fails.
unfoldable pub run_hook : HookWorld → Dict Str → Option Hook → Outcome
unfolding run_sql_hook run_command_hook
run_hook w envs none = (true, [])
run_hook w envs (some h) =
    let deadline = if is_zero h.deadline then default_hook_deadline else h.deadline in
    all_pass (
      optional (run_sql_hook w deadline envs) h.sql
      ++ optional (run_command_hook w deadline envs) h.command)
