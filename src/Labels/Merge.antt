-- ===== src/Labels/Merge.antt =====
-- Where a label has its value from (pkg/metrics/metrics.go).
use process_wrapper.Prelude.{◌≡◌, ap, ◌∙◌, [], ◌∷◌, Str, codes}
use process_wrapper.Prelude.Dict.{Dict, IsDict, lookup}
use process_wrapper.Env.{load_process_envs}
use process_wrapper.Env.Merge.{or_else, lookup-load_process_envs}
use process_wrapper.Labels.{merge_labels}

-- The labels of the node.
abbrev pub node_labels : (Str → Str) → Dict Str
node_labels getenv =
    (codes "pod", getenv (codes "HOSTNAME"))
    ∷ (codes "namespace", getenv (codes "POD_NAMESPACE"))
    ∷ (codes "node", getenv (codes "NODE_NAME"))
    ∷ []

-- A merged label has the value that the event gives it, failing that its value in the labels file,
-- failing that its value in the JSON labels, failing that its value among the labels of the node.
pub merge_labels_precedence :
    (getenv : Str → Str) (json file merge : Dict Str) (k : Str)
    → IsDict json
    → IsDict file
    → IsDict merge
    → lookup k (merge_labels getenv json file merge)
      ≡ or_else
          (lookup k merge)
          (or_else (lookup k file) (or_else (lookup k json) (lookup k (node_labels getenv))))
unfolding merge_labels
merge_labels_precedence getenv json file merge k dj df dm =
    let labels = node_labels getenv in
    lookup-load_process_envs k merge (load_process_envs file (load_process_envs json labels)) dm
    ∙ ap (or_else (lookup k merge)) (
        lookup-load_process_envs k file (load_process_envs json labels) df
        ∙ ap (or_else (lookup k file)) (lookup-load_process_envs k json labels dj))
