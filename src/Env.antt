-- ===== src/Env.antt =====
-- The environment of a child process: `parseEnv`, `removeQuotes`, `MergeEnvs` and `ConvertEnvs` of
-- pkg/process/process.go. `os.Environ` and the file system are arguments.
pub mod Parse
pub mod Merge
pub mod Convert
mod Examples
use process_wrapper.Prelude.{
  ℕ, ◌+◌, Bool, true, false, ◌&&◌, List, [], ◌∷◌, ◌++◌, Option, none, some, Str, ◌==◌,
  if◌then◌else◌, is_empty, trim_space,
}
use process_wrapper.Prelude.Dict.{Dict, insert}

abbrev pub extend_key : ℕ → Option (Str × Str) → Option (Str × Str)
extend_key c none = none
extend_key c (some (k, v)) = some (c ∷ k, v)

-- The slice that `parseEnv` returns has two elements or none.
unfoldable pub parse_env : Str → Option (Str × Str)
parse_env [] = none
parse_env (c ∷ e) = let rest = parse_env e in if c == b'=' then some ([], e) else extend_key c rest

-- The text with its last byte dropped, and that byte.
abbrev pub split_last : ℕ → Str → Str × ℕ
split_last c [] = ([], c)
split_last c (d ∷ s) = let (t, z) = split_last d s in (c ∷ t, z)

unfoldable pub remove_quotes : Str → Str
remove_quotes [] = []
remove_quotes (c ∷ []) = c ∷ []
remove_quotes (c ∷ d ∷ s) =
    let (middle, z) = split_last d s in if c == b'"' && z == b'"' then middle else c ∷ d ∷ s

abbrev pub store_env : Option (Str × Str) → Dict Str → Dict Str
store_env none envs = envs
store_env (some (k, v)) envs = insert k v envs

-- "Load os envs"
unfoldable pub load_os_envs : List Str → Dict Str → Dict Str
unfolding parse_env
load_os_envs [] envs = envs
load_os_envs (e ∷ environ) envs = load_os_envs environ (store_env (parse_env e) envs)

-- "Load process envs"; the iteration over the map meets its entries in any order.
unfoldable pub load_process_envs : Dict Str → Dict Str → Dict Str
load_process_envs [] envs = envs
load_process_envs ((k, v) ∷ own) envs = load_process_envs own (insert k v envs)

abbrev pub unquoted : Option (Str × Str) → Option (Str × Str)
unquoted none = none
unquoted (some (k, v)) = some (k, remove_quotes v)

-- One line of the envs file: an empty line is skipped.
unfoldable pub parse_line : Str → Option (Str × Str)
unfolding parse_env remove_quotes trim_space
parse_line text = if is_empty text then none else unquoted (parse_env (trim_space text))

-- "Load process envs from file"
unfoldable pub load_file_envs : List Str → Dict Str → Dict Str
unfolding parse_line
load_file_envs [] envs = envs
load_file_envs (text ∷ texts) envs = load_file_envs texts (store_env (parse_line text) envs)

-- `bufio.ScanLines` over a file: a line ends at a newline, a carriage return before it is dropped,
-- and what follows the last newline is a line if it is not empty. (Lines of 64 KB and more, at which
-- a scanner gives up, do not occur.)
abbrev pub drop_cr : Str → Str
drop_cr [] = []
drop_cr (c ∷ s) = let (t, z) = split_last c s in if z == 13 then t else c ∷ s

unfoldable pub scan_lines : Str → Str → List Str
scan_lines line [] = if is_empty line then [] else drop_cr line ∷ []
scan_lines line (c ∷ text) =
    let next = drop_cr line ∷ scan_lines [] text in
    let more = scan_lines (line ++ c ∷ []) text in if c == b'\n' then next else more

-- `MergeEnvs`; `none` is the `os.Exit(1)` of an envs file that cannot be opened.
unfoldable pub merge_envs : List Str → (Str → Option Str) → Dict Str → Str → Option (Dict Str)
unfolding load_os_envs load_process_envs load_file_envs scan_lines
merge_envs environ read_file own envs_file =
    let envs = load_process_envs own (load_os_envs environ []) in
    if is_empty envs_file then some envs else elim (read_file envs_file) [
      | none ↦ none
      | some text ↦ some (load_file_envs (scan_lines [] text) envs)
    ]

-- `ConvertEnvs`
unfoldable pub convert_envs : Dict Str → List Str
convert_envs [] = []
convert_envs ((k, v) ∷ envs) = (k ++ (b'=' ∷ v)) ∷ convert_envs envs
