-- ===== src/Env/Convert.antt =====
-- `ConvertEnvs` loses nothing: the child reads back the merged environment
-- (pkg/process/process.go).
use process_wrapper.Prelude.{
  Bool-cases, ◌⊎◌, Option-cases, ◌≡◌, refl, ◌∙◌, ap, List, [], ◌∷◌, Option, none, some, Str, arith,
  inl, inr,
}
use process_wrapper.Prelude.Dict.{insert-IsDict, Dict, IsDict, lookup, insert}
use process_wrapper.Env.{
  scan_lines, is_empty, trim_space, unquoted, parse_env, parse_line, store_env, load_os_envs,
  load_process_envs, load_file_envs, merge_envs, convert_envs,
}
use mathlib.Core.Path.{subst}
use process_wrapper.Env.Merge.{lookup-load_process_envs, or_else-none}
use process_wrapper.Env.Parse.{IsKey, parse_env_iff, parse_env-append}

-- No key of the environment holds a `=`.
abbrev pub HasKeys : Dict Str → Type 0
HasKeys [] = Unit
HasKeys ((k, v) ∷ m) = IsKey k × HasKeys m

load_os_envs-convert_envs :
    (m envs : Dict Str) → HasKeys m → load_os_envs (convert_envs m) envs ≡ load_process_envs m envs
unfolding load_os_envs convert_envs load_process_envs
load_os_envs-convert_envs [] envs h = refl
load_os_envs-convert_envs ((k, v) ∷ m) envs h =
    ap (λ o. load_os_envs (convert_envs m) (store_env o envs)) (parse_env-append k v h.0)
    ∙ load_os_envs-convert_envs m (insert k v envs) h.1

insert-HasKeys : (k v : Str) (m : Dict Str) → IsKey k → HasKeys m → HasKeys (insert k v m)
unfolding insert
insert-HasKeys k v [] hk h = (hk, tt)
insert-HasKeys k v ((j, w) ∷ m) hk h = ground (arith, insert-HasKeys k v m hk)

-- A parsed key, if there is one, and a dictionary fit to be converted.
abbrev ParsedKey : Option (Str × Str) → Type 0
ParsedKey none = Unit
ParsedKey (some (k, v)) = IsKey k

abbrev IsEnv : Dict Str → Type 0
IsEnv m = HasKeys m × IsDict m

parse_env-ParsedKey : (e : Str) (o : Option (Str × Str)) → parse_env e ≡ o → ParsedKey o
parse_env-ParsedKey e none h = tt
parse_env-ParsedKey e (some (k, v)) h = ((parse_env_iff e k v).0 h).1

unquoted-ParsedKey : (o : Option (Str × Str)) → ParsedKey o → ParsedKey (unquoted o)
unquoted-ParsedKey none h = tt
unquoted-ParsedKey (some (k, v)) h = h

parse_line-ParsedKey : (text : Str) → ParsedKey (parse_line text)
unfolding parse_line
parse_line-ParsedKey [] = tt
parse_line-ParsedKey (c ∷ text) =
    unquoted-ParsedKey _ (parse_env-ParsedKey (trim_space (c ∷ text)) _ refl)

store_env-IsEnv :
    (o : Option (Str × Str)) (m : Dict Str) → ParsedKey o → IsEnv m → IsEnv (store_env o m)
store_env-IsEnv none m p h = h
store_env-IsEnv (some (k, v)) m p h = (insert-HasKeys k v m p h.0, insert-IsDict k v m h.1)

load_os_envs-IsEnv : (environ : List Str) (m : Dict Str) → IsEnv m → IsEnv (load_os_envs environ m)
unfolding load_os_envs
load_os_envs-IsEnv [] m h = h
load_os_envs-IsEnv (e ∷ environ) m h =
    load_os_envs-IsEnv environ _ (store_env-IsEnv _ m (parse_env-ParsedKey e _ refl) h)

load_file_envs-IsEnv : (texts : List Str) (m : Dict Str) → IsEnv m → IsEnv (load_file_envs texts m)
unfolding load_file_envs
load_file_envs-IsEnv [] m h = h
load_file_envs-IsEnv (e ∷ texts) m h =
    load_file_envs-IsEnv texts _ (store_env-IsEnv _ m (parse_line-ParsedKey e) h)

load_process_envs-IsEnv :
    (own m : Dict Str) → HasKeys own → IsEnv m → IsEnv (load_process_envs own m)
unfolding load_process_envs
load_process_envs-IsEnv [] m hk h = h
load_process_envs-IsEnv ((k, v) ∷ own) m hk h =
    load_process_envs-IsEnv own _ hk.1 (insert-HasKeys k v m hk.0 h.0, insert-IsDict k v m h.1)

merge_envs-cases :
    (environ : List Str) (read_file : Str → Option Str) (own : Dict Str) (envs_file : Str)
    (m : Dict Str)
    → merge_envs environ read_file own envs_file ≡ some m
    → let envs = load_process_envs own (load_os_envs environ []) in
      (envs ≡ m) ⊎ ((texts : List Str) × (load_file_envs texts envs ≡ m))
unfolding merge_envs
merge_envs-cases environ read_file own envs_file m h = elim (Option-cases (read_file envs_file)) [
  | inl missing ↦ inl (ground arith)
  | inr (text, found) ↦ elim (Bool-cases (is_empty envs_file)) [
    | inl unnamed ↦ inl (ground arith)
    | inr named ↦ inr (scan_lines [] text, ground arith)
  ]
]

merge_envs-IsEnv :
    (environ : List Str) (read_file : Str → Option Str) (own : Dict Str) (envs_file : Str)
    (m : Dict Str)
    → HasKeys own
    → merge_envs environ read_file own envs_file ≡ some m
    → IsEnv m
merge_envs-IsEnv environ read_file own envs_file m hk h =
    let envs = load_process_envs own (load_os_envs environ []) in
    let base =
      load_process_envs-IsEnv own (load_os_envs environ []) hk
        (load_os_envs-IsEnv environ [] (tt, tt)) in
    elim (merge_envs-cases environ read_file own envs_file m h) [
      | inl e ↦ subst IsEnv e base
      | inr (texts, e) ↦ subst IsEnv e (load_file_envs-IsEnv texts envs base)
    ]

-- A child that reads its environment back as `MergeEnvs` reads the wrapper's own finds every merged
-- variable with its value and no other, if no key of the command's own envs holds a `=`.
pub convert_envs-merge_envs :
    (environ : List Str) (read_file : Str → Option Str) (own : Dict Str) (envs_file k : Str)
    (m : Dict Str)
    → HasKeys own
    → merge_envs environ read_file own envs_file ≡ some m
    → lookup k (load_os_envs (convert_envs m) []) ≡ lookup k m
unfolding lookup
convert_envs-merge_envs environ read_file own envs_file k m hk h =
    let (keys, dict) = merge_envs-IsEnv environ read_file own envs_file m hk h in
    ap (lookup k) (load_os_envs-convert_envs m [] keys)
    ∙ lookup-load_process_envs k m [] dict
    ∙ or_else-none (lookup k m)
