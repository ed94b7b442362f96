-- ===== src/Hooks/Effects.antt =====
-- What a post-start hook does, and when it passes (pkg/process/hook.go).
use process_wrapper.Prelude.{
  ◌≡◌, ◌⊎◌, inl, inr, refl, ap, true, false, ◌&&◌, List, [], ◌∷◌, ◌++◌, some, Str, arith, All, map,
  Bool-cases, if◌then◌else◌,
}
use process_wrapper.Prelude.Dict.{Dict}
use process_wrapper.Clock.{Duration}
use process_wrapper.Command.{ExecCommand, SqlHook, Hook}
use process_wrapper.Hooks.{
  default_hook_deadline, is_zero, HookWorld, query, program, run_queries, run_sql_hook, run_hook,
  validate_args,
}

-- A run of queries up to the first that fails.
pub record FailsAt (w : HookWorld) (deadline : Duration) (dsn : Str) (queries : List Str)
    : Type 0 where
  pub passed : List Str
  pub failed : Str
  pub unread : List Str
  pub splits : queries ≡ passed ++ (failed ∷ unread)
  pub all_passed : All (λ q. w.succeeds deadline (query dsn q) ≡ true) passed
  pub fails : w.succeeds deadline (query dsn failed) ≡ false
  pub steps : (run_queries w deadline dsn queries).1 ≡ map (query dsn) (passed ++ failed ∷ [])

-- Either all queries of a SQL hook succeed, all are made, in order, and the verdict is true; or the
-- verdict is false, and those made, in order, are the ones up to the first that fails.
pub run_queries_cases :
    (w : HookWorld) (deadline : Duration) (dsn : Str) (queries : List Str)
    → (((run_queries w deadline dsn queries).0 ≡ true)
        × All (λ q. w.succeeds deadline (query dsn q) ≡ true) queries
        × ((run_queries w deadline dsn queries).1 ≡ map (query dsn) queries))
      ⊎ (((run_queries w deadline dsn queries).0 ≡ false) × FailsAt w deadline dsn queries)
unfolding run_queries
run_queries_cases w deadline dsn [] = inl (refl, tt, refl)
run_queries_cases w deadline dsn (q ∷ queries) =
    elim (Bool-cases (w.succeeds deadline (query dsn q))) [
      | inr broken ↦ inr (
        rw broken,
        record {
          passed = [];
          failed = q;
          unread = queries;
          splits = refl;
          all_passed = tt;
          fails = broken;
          steps = ground arith;
        },
      )
      | inl fine ↦ elim (run_queries_cases w deadline dsn queries) [
        | inl (verdict, succeed, steps) ↦ inl (ground arith, (fine, succeed), ground arith)
        | inr (verdict, f) ↦ inr (
          ground arith,
          record {
            passed = q ∷ f.passed;
            failed = f.failed;
            unread = f.unread;
            splits = ap (◌∷◌ q) f.splits;
            all_passed = (fine, f.all_passed);
            fails = f.fails;
            steps = ground (arith, f.steps);
          },
        )
      ]
    ]

-- The verdict of a hook with both parts is that both pass, and the command is run, behind the steps
-- of the SQL part, also where that fails.
pub run_hook_both :
    (w : HookWorld) (envs : Dict Str) (h : Hook) (sql : SqlHook) (command : ExecCommand)
    → h.sql ≡ some sql
    → h.command ≡ some command
    → let deadline = if is_zero h.deadline then default_hook_deadline else h.deadline in
      let (passed, steps) = run_sql_hook w deadline envs sql in
      let step = program command.entrypoint (validate_args command.args) envs in
      run_hook w envs (some h) ≡ (passed && w.succeeds deadline step, steps ++ step ∷ [])
unfolding run_hook
run_hook_both w envs h sql command a b = rw (a, b) (ground arith)
