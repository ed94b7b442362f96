-- ===== src/Env/Merge.antt =====
-- The precedence of the sources of a child's environment (`MergeEnvs`, pkg/process/process.go).
use process_wrapper.Prelude.{
  inr, inl, Option-cases, ◌↔◌, str_eq_iff, ◌≡◌, refl, ◌∙◌, ap, List, [], ◌∷◌, Option, none, some,
  Str, str_eq, if◌then◌else◌, arith, is_empty, false,
}
use process_wrapper.Prelude.Dict.{Dict, IsDict, lookup, insert, lookup-insert}
use process_wrapper.Env.{
  parse_env, parse_line, store_env, load_os_envs, load_process_envs, load_file_envs, scan_lines,
  merge_envs,
}

abbrev pub or_else : Option Str → Option Str → Option Str
or_else none y = y
or_else (some x) y = some x

abbrev pub match_key : Str → Option (Str × Str) → Option Str
match_key k none = none
match_key k (some (j, v)) = if str_eq j k then some v else none

-- The value that the last line for a key gives it.
abbrev pub last_value : (Str → Option (Str × Str)) → Str → List Str → Option Str
last_value parse k [] = none
last_value parse k (e ∷ es) = or_else (last_value parse k es) (match_key k (parse e))

lookup-store_env :
    (k : Str) (o : Option (Str × Str)) (envs : Dict Str)
    → lookup k (store_env o envs) ≡ or_else (match_key k o) (lookup k envs)
lookup-store_env k none envs = refl
lookup-store_env k (some (j, v)) envs = ground (arith, lookup-insert j k v envs)

or_else_assoc : (x y z : Option Str) → or_else x (or_else y z) ≡ or_else (or_else x y) z
or_else_assoc none y z = refl
or_else_assoc (some x) y z = refl

lookup-load_os_envs :
    (k : Str) (environ : List Str) (envs : Dict Str)
    → lookup k (load_os_envs environ envs)
      ≡ or_else (last_value parse_env k environ) (lookup k envs)
unfolding load_os_envs
lookup-load_os_envs k [] envs = refl
lookup-load_os_envs k (e ∷ environ) envs =
    lookup-load_os_envs k environ (store_env (parse_env e) envs)
    ∙ ap (or_else (last_value parse_env k environ)) (lookup-store_env k (parse_env e) envs)
    ∙ or_else_assoc (last_value parse_env k environ) (match_key k (parse_env e)) (lookup k envs)

lookup-load_file_envs :
    (k : Str) (texts : List Str) (envs : Dict Str)
    → lookup k (load_file_envs texts envs) ≡ or_else (last_value parse_line k texts) (lookup k envs)
unfolding load_file_envs
lookup-load_file_envs k [] envs = refl
lookup-load_file_envs k (e ∷ texts) envs =
    lookup-load_file_envs k texts (store_env (parse_line e) envs)
    ∙ ap (or_else (last_value parse_line k texts)) (lookup-store_env k (parse_line e) envs)
    ∙ or_else_assoc (last_value parse_line k texts) (match_key k (parse_line e)) (lookup k envs)

pub lookup-load_process_envs :
    (k : Str) (own envs : Dict Str)
    → IsDict own
    → lookup k (load_process_envs own envs) ≡ or_else (lookup k own) (lookup k envs)
unfolding load_process_envs lookup
lookup-load_process_envs k [] envs d = refl
lookup-load_process_envs k ((j, v) ∷ own) envs d = ground (
  arith,
  str_eq_iff j k,
  lookup-insert j k v envs,
  lookup-load_process_envs k own (insert j v envs) d.1,
)

-- What the envs file gives a key.
abbrev pub file_value : (Str → Option Str) → Str → Str → Option Str
file_value read_file envs_file k = if is_empty envs_file then none else elim (read_file envs_file) [
  | none ↦ none
  | some text ↦ last_value parse_line k (scan_lines [] text)
]

pub or_else-none : (x : Option Str) → or_else x none ≡ x
or_else-none none = refl
or_else-none (some x) = refl

-- The environment before the envs file is read.
lookup-base :
    (k : Str) (environ : List Str) (own : Dict Str)
    → IsDict own
    → lookup k (load_process_envs own (load_os_envs environ []))
      ≡ or_else (lookup k own) (last_value parse_env k environ)
unfolding lookup
lookup-base k environ own d =
    lookup-load_process_envs k own (load_os_envs environ []) d
    ∙ ap (or_else (lookup k own))
        (lookup-load_os_envs k environ [] ∙ or_else-none (last_value parse_env k environ))

-- In the merged environment a key has the value of its last line in the envs file, failing that the
-- value of the command's own envs, failing that its last value in the wrapper's environment.
pub merge_envs_precedence :
    (environ : List Str) (read_file : Str → Option Str) (own : Dict Str) (envs_file k : Str)
    (m : Dict Str)
    → IsDict own
    → merge_envs environ read_file own envs_file ≡ some m
    → lookup k m
      ≡ or_else
          (file_value read_file envs_file k)
          (or_else (lookup k own) (last_value parse_env k environ))
unfolding merge_envs
merge_envs_precedence environ read_file own envs_file k m d h =
    let envs = load_process_envs own (load_os_envs environ []) in
    elim (Option-cases (read_file envs_file)) [
      | inl missing ↦ ground (arith, lookup-base k environ own d)
      | inr (text, found) ↦
          ground
            (arith, lookup-base k environ own d, lookup-load_file_envs k (scan_lines [] text) envs)
    ]

-- `MergeEnvs` ends the program exactly when an envs file is named and cannot be opened.
pub merge_envs_fails_iff :
    (environ : List Str) (read_file : Str → Option Str) (own : Dict Str) (envs_file : Str)
    → (merge_envs environ read_file own envs_file ≡ none)
      ↔ ((is_empty envs_file ≡ false) × (read_file envs_file ≡ none))
unfolding merge_envs
merge_envs_fails_iff environ read_file own envs_file = ((λ h. ground arith), λ h. ground arith)
