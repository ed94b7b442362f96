-- ===== src/Env/Examples.antt =====
-- Tests of the environment of a child process.
use process_wrapper.Prelude.{◌≡◌, refl, List, [], ◌∷◌, Option, some, Str, codes, arith}
use process_wrapper.Prelude.Dict.{Dict, lookup, insert}
use process_wrapper.Env.{parse_env, parse_line, merge_envs, convert_envs, load_os_envs}
use process_wrapper.Env.Merge.{or_else, last_value, file_value, merge_envs_precedence}
use process_wrapper.Env.Convert.{convert_envs-merge_envs}

abbrev environ : List Str
environ = codes "PATH=/bin" ∷ codes "PORT=1" ∷ codes "BAD" ∷ []

abbrev own : Dict Str
own = (codes "PORT", codes "2") ∷ (codes "HOST", codes "a=b") ∷ []

abbrev files : Str → Option Str
files path = some (codes "PORT=\"3\"\n\n  HOST2=x  \n")

abbrev merged : Dict Str
merged =
    (codes "PATH", codes "/bin")
    ∷ (codes "PORT", codes "3")
    ∷ (codes "HOST", codes "a=b")
    ∷ (codes "HOST2", codes "x")
    ∷ []

merge_envs-merged : merge_envs environ files own (codes "f") ≡ some merged
unfolding merge_envs parse_line insert
merge_envs-merged = refl

merge_envs_precedence_example :
    lookup (codes "PORT") merged
    ≡ or_else
        (file_value files (codes "f") (codes "PORT"))
        (or_else (lookup (codes "PORT") own) (last_value parse_env (codes "PORT") environ))
merge_envs_precedence_example =
    merge_envs_precedence environ files own (codes "f") (codes "PORT") merged
      (unfold lookup in (refl, (refl, tt))) merge_envs-merged

convert_envs-merge_envs_example :
    lookup (codes "HOST") (load_os_envs (convert_envs merged) []) ≡ lookup (codes "HOST") merged
convert_envs-merge_envs_example =
    convert_envs-merge_envs environ files own (codes "f") (codes "HOST") merged (omega arith)
      merge_envs-merged
