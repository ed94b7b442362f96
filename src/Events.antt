-- ===== src/Events.antt =====
-- The metrics server and what is pushed to it: `NewMetricsServer`, `GetExtraJSONLabels` and the `Push`
-- methods of pkg/metrics/metrics.go, and `HealthRun` of pkg/process/health.go. The network, the JSON
-- codec, variables and files are arguments. A server is the address that it was dialled at; a
-- `*Server` that may be nil is an `Option`.
pub mod Pushed
mod Examples
use process_wrapper.Prelude.{
  ℕ, zero, suc, Bool, true, false, not, ◌&&◌, List, [], ◌∷◌, ◌++◌, Option, none, some, Str, codes,
  split, str_eq, is_empty, is_some, if◌then◌else◌,
}
use process_wrapper.Prelude.Dict.{Dict, insert, lookup}
use process_wrapper.Labels.{load_labels, merge_labels}

-- The package's variables `metricsServer`, `extraJSONLabels` and `extraFileLabels`.
pub record Globals : Type 0 where
  pub metrics_server : Option Str
  pub extra_json_labels : Option (Dict Str)
  pub extra_file_labels : Option (Dict Str)

pub record MetricsWorld : Type 0 where
  -- `net.Dial("udp", address)` succeeds
  pub dial : Str → Bool
  -- `os.LookupEnv`
  pub lookup_env : Str → Option Str
  -- what `json.Unmarshal` leaves in a map of strings, also where it fails
  pub decode_labels : Str → Dict Str
  -- the reads of the labels file, each a line and whether its error is `io.EOF`
  pub label_reads : Str → List (Str × Bool)

-- `GetExtraJSONLabels`
unfoldable pub get_extra_json_labels : MetricsWorld → Globals → Globals
get_extra_json_labels w g = elim g.extra_json_labels [
  | some labels ↦ g
  | none ↦ elim (w.lookup_env (codes "METRICS_JSON_EXTRA_LABELS")) [
    | none ↦ g
    | some text ↦ record g { extra_json_labels = some (w.decode_labels text) }
  ]
]

abbrev excluded : Option Str → List Str
excluded none = []
excluded (some text) = split b',' text

-- `GetExtraFileLabels`, with whether it has returned.
unfoldable pub get_extra_file_labels : MetricsWorld → Globals → Globals × Bool
unfolding load_labels split
get_extra_file_labels w g = elim g.extra_file_labels [
  | some labels ↦ (g, true)
  | none ↦ elim (w.lookup_env (codes "METRICS_EXTRA_LABELS_FILE_PATH")) [
    | none ↦ (g, true)
    | some path ↦
        let exclude = excluded (w.lookup_env (codes "METRICS_EXTRA_LABELS_FILE_EXCLUDE")) in
        let (labels, ended) = load_labels exclude (w.label_reads path) [] in
        (record g { extra_file_labels = some labels }, ended)
  ]
]

-- The server, unless it has not returned yet.
abbrev after_labels : Str → Globals × Bool → Globals × Option (Option Str)
after_labels address (g, true) = (g, some (some address))
after_labels address (g, false) = (g, none)

-- `NewMetricsServer`
unfoldable pub new_metrics_server : MetricsWorld → Str → Globals → Globals × Option (Option Str)
unfolding get_extra_json_labels get_extra_file_labels
new_metrics_server w address g =
    if is_empty address then (g, some none) else elim g.metrics_server [
      | some old ↦ (g, some (some old))
      | none ↦
          if w.dial address
          then after_labels address (
              get_extra_file_labels w
                (get_extra_json_labels w (record g { metrics_server = some address })))
          else (g, some none)
    ]

pub record Metric : Type 0 where
  pub name : Str
  pub labels : Dict Str
  pub operation : Str
  pub help : Str
  pub value : ℕ

abbrev pub labels_or_none : Option (Dict Str) → Dict Str
labels_or_none none = []
labels_or_none (some labels) = labels

-- A metric of `MergeLabels(labels)`, with its name as the label `event_type`.
unfoldable pub metric_of : (Str → Str) → Globals → Str → Str → ℕ → Dict Str → Metric
unfolding merge_labels insert
metric_of getenv g name operation value labels = record {
  name = name;
  labels = insert (codes "event_type") name (
      merge_labels getenv (labels_or_none g.extra_json_labels) (labels_or_none g.extra_file_labels)
        labels);
  operation = operation;
  help = [];
  value = value;
}

-- `Push`: what it writes to the connection, over the result of the codec; nothing but an empty datagram
-- after an error.
unfoldable pub push : (Metric → Option Str) → Metric → Str
push marshal m = elim (marshal m) [ none ↦ [] | some text ↦ text ]

-- What each method writes to the connection, one datagram for each metric; nothing without a server.
abbrev pub Datagrams : Type 0
Datagrams = List Metric

-- Whether a success is left out: only the debug level pushes it.
abbrev is_quiet : Bool → Option Str → Bool
is_quiet debug none = false
is_quiet debug (some status) = str_eq status (codes "true") && not debug

abbrev pub format_bool : Bool → Str
format_bool true = codes "true"
format_bool false = codes "false"

abbrev pub probe_labels : Str → Str → Bool → Dict Str
probe_labels name probe status =
    (codes "event_type", codes "readiness")
    ∷ (codes "process_name", name)
    ∷ (codes "probe", probe)
    ∷ (codes "status", format_bool status)
    ∷ []

module _ (getenv : Str → Str) (g : Globals) (server : Option Str) where
  abbrev with_server : Datagrams → Datagrams
  with_server metrics = if is_some server then metrics else []

  unfoldable pub push_init_preempted_metric : Datagrams
  unfolding metric_of
  push_init_preempted_metric =
      with_server (metric_of getenv g (codes "preempted") (codes "inc") 0 [] ∷ [])

  abbrev times : ℕ → Metric → Datagrams
  times zero m = []
  times (suc n) m = m ∷ times n m

  -- The last sixty are a second apart, in a goroutine.
  unfoldable pub push_preempted_event : Datagrams
  unfolding metric_of
  push_preempted_event =
      let m = metric_of getenv g (codes "preempted") (codes "event") 1 [] in
      let n = metric_of getenv g (codes "preemption_count") (codes "event") 1 [] in
      with_server (m ∷ record m { operation = codes "inc" } ∷ times 60 n)

  unfoldable pub push_termination_event : Dict Str → Datagrams
  unfolding metric_of
  push_termination_event labels =
      with_server (metric_of getenv g (codes "termination") (codes "event") 1 labels ∷ [])

  unfoldable pub push_command_restart_event : Dict Str → Datagrams
  unfolding metric_of
  push_command_restart_event labels =
      with_server (metric_of getenv g (codes "restart") (codes "event") 1 labels ∷ [])

  unfoldable pub push_health_event : Bool → Dict Str → Datagrams
  unfolding metric_of lookup str_eq
  push_health_event debug labels =
      if is_quiet debug (lookup (codes "status") labels)
      then []
      else with_server (metric_of getenv g (codes "readiness") (codes "event") 1 labels ∷ [])

  -- What `HealthRun` pushes for a probe that prints as `probe` and has answered `status`.
  unfoldable pub push_health_run : Bool → Str → Str → Bool → Datagrams
  unfolding push_health_event
  push_health_run debug name probe status = push_health_event debug (probe_labels name probe status)
