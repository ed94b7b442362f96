-- ===== src/Labels.antt =====
-- The labels of metrics: `GetExtraFileLabels` and `MergeLabels` of pkg/metrics/metrics.go. The labels
-- decoded from JSON, the variables of the environment and what is read of the labels file are
-- arguments.
pub mod Merge
mod Examples
use process_wrapper.Prelude.{
  ℕ, Bool, true, false, not, List, [], ◌∷◌, Option, none, some, Str, codes, ◌==◌, is_empty, map,
  select, trim_space, slice_contains, if◌then◌else◌,
}
use process_wrapper.Prelude.Dict.{Dict, insert}
use process_wrapper.Env.{parse_env, store_env, load_process_envs}

-- `strings.ReplaceAll(key, "-", "_")`
unfoldable pub replace_dashes : Str → Str
replace_dashes key = map (λ c. if c == b'-' then b'_' else c) key

-- `strings.ReplaceAll(value, "\"", "")`
unfoldable pub drop_quotes : Str → Str
drop_quotes value = select (λ c. not (c == b'"')) value

-- The label of one line. The cut at its first `=` is that of `parse_env`.
unfoldable pub parse_label : List Str → Str → Option (Str × Str)
unfolding parse_env trim_space slice_contains replace_dashes drop_quotes
parse_label exclude line = elim (parse_env line) [
  | none ↦ none
  | some (k, v) ↦
      let key = trim_space k in
      if is_empty key
      then none
      else if slice_contains exclude key
      then none
      else some (replace_dashes key, drop_quotes (trim_space v))
]

-- The loop over the reads of the file, each a line and whether its error is `io.EOF`: the labels, and
-- whether the loop has ended. A file that could not be opened gives empty lines and another error at
-- every read.
unfoldable pub load_labels : List Str → List (Str × Bool) → Dict Str → Dict Str × Bool
unfolding parse_label
load_labels exclude [] labels = (labels, false)
load_labels exclude ((line, eof) ∷ reads) labels =
    let labels' = store_env (parse_label exclude line) labels in
    let rest = load_labels exclude reads labels' in if eof then (labels', true) else rest

-- `MergeLabels`; each of its loops over a map is the one of `load_process_envs`.
unfoldable pub merge_labels : (Str → Str) → Dict Str → Dict Str → Dict Str → Dict Str
unfolding load_process_envs
merge_labels getenv json file merge =
    let labels =
      (codes "pod", getenv (codes "HOSTNAME"))
      ∷ (codes "namespace", getenv (codes "POD_NAMESPACE"))
      ∷ (codes "node", getenv (codes "NODE_NAME"))
      ∷ [] in
    load_process_envs merge (load_process_envs file (load_process_envs json labels))
