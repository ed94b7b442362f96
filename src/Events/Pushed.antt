-- ===== src/Events/Pushed.antt =====
-- What a pushed metric holds (pkg/metrics/metrics.go, and `HealthRun` of pkg/process/health.go).
use process_wrapper.Prelude.{
  ◌≡◌, refl, ap, ◌∙◌, Bool, true, false, not, ◌||◌, ◌&&◌, [], ◌∷◌, Option, none, some, Str, codes,
  str_eq, is_some, if◌then◌else◌, ℕ,
}
use process_wrapper.Prelude.Dict.{Dict, IsDict, lookup, lookup-insert}
use process_wrapper.Env.Merge.{or_else}
use process_wrapper.Labels.Merge.{node_labels, merge_labels_precedence}
use process_wrapper.Events.{
  Globals, labels_or_none, metric_of, push_health_event, push_health_run, probe_labels,
}

-- The labels that the package has read are maps.
abbrev pub AreDicts : Globals → Type 0
AreDicts g =
    IsDict (labels_or_none g.extra_json_labels) × IsDict (labels_or_none g.extra_file_labels)

-- In every pushed metric the label `event_type` is the name of the metric, whatever the event, the
-- labels file or the JSON labels say; any other label has the value that the event gives it, failing
-- that the one of the file, failing that the one of the JSON labels, failing that the node's.
pub lookup-metric_of :
    (getenv : Str → Str) (g : Globals) (name operation : Str) (value : ℕ) (labels : Dict Str)
    (k : Str)
    → AreDicts g
    → IsDict labels
    → lookup k (metric_of getenv g name operation value labels).labels ≡ (
        if str_eq (codes "event_type") k
        then some name
        else or_else (lookup k labels) (
            or_else (lookup k (labels_or_none g.extra_file_labels)) (
              or_else
                (lookup k (labels_or_none g.extra_json_labels))
                (lookup k (node_labels getenv)))))
unfolding metric_of
lookup-metric_of getenv g name operation value labels k d e =
    lookup-insert (codes "event_type") k name _
    ∙ ap (λ rest. if str_eq (codes "event_type") k then some name else rest)
        (merge_labels_precedence getenv (labels_or_none g.extra_json_labels)
          (labels_or_none g.extra_file_labels) labels k d.0 d.1 e)

-- A probe is reported to the metrics server exactly when there is one and the probe has failed, or the
-- log level is debug; then by one metric.
pub push_health_run-cases :
    (getenv : Str → Str) (g : Globals) (server : Option Str) (debug : Bool) (name probe : Str)
    (status : Bool)
    → push_health_run getenv g server debug name probe status ≡ (
        if is_some server && (not status || debug)
        then metric_of getenv g
            (codes "readiness")
            (codes "event")
            1
            (probe_labels name probe status)
          ∷ []
        else [])
unfolding push_health_run push_health_event lookup str_eq
push_health_run-cases getenv g none true name probe true = refl
push_health_run-cases getenv g none true name probe false = refl
push_health_run-cases getenv g none false name probe true = refl
push_health_run-cases getenv g none false name probe false = refl
push_health_run-cases getenv g (some a) true name probe true = refl
push_health_run-cases getenv g (some a) true name probe false = refl
push_health_run-cases getenv g (some a) false name probe true = refl
push_health_run-cases getenv g (some a) false name probe false = refl
