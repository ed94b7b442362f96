-- ===== src/Hooks/Examples.antt =====
-- Tests of the hooks.
use process_wrapper.Prelude.{◌≡◌, refl, false, [], ◌∷◌, some, codes}
use process_wrapper.Hooks.{program, run_sql_hook, run_command_hook, run_hook, validate_args}
use process_wrapper.Prelude.Dict.{lookup}
use process_wrapper.Probes.{data_source}
use process_wrapper.Sample.{hook_world, both_parts}

-- Without a data source the SQL part fails, and the command is run all the same.
command_run :
    run_hook hook_world [] (some both_parts)
    ≡ (false, program (codes "sleep") (codes "1" ∷ []) [] ∷ [])
unfolding run_hook run_sql_hook run_command_hook validate_args data_source lookup
command_run = refl
