-- ===== src/Events/Examples.antt =====
-- Tests of the metrics that are pushed.
use process_wrapper.Prelude.{
  ◌≡◌, refl, true, false, ◌∷◌, [], some, none, Str, codes, if◌then◌else◌, not, ◌&&◌, ◌||◌, is_some,
}
use process_wrapper.Prelude.Dict.{Dict}
use process_wrapper.Events.{
  Globals, MetricsWorld, new_metrics_server, metric_of, push_health_run, probe_labels,
}
use process_wrapper.Events.Pushed.{push_health_run-cases}
use process_wrapper.Sample.{web}

abbrev none_read : Globals
none_read = record { metrics_server = none; extra_json_labels = none; extra_file_labels = none }

-- Variables are set, and the labels file cannot be opened.
abbrev world : MetricsWorld
world = record {
  dial = λ address. true;
  lookup_env = λ name. some name;
  decode_labels = λ text. (codes "team", codes "core") ∷ [];
  label_reads = λ path. ([], false) ∷ ([], false) ∷ [];
}

never_returns : (new_metrics_server world (codes ":8125") none_read).1 ≡ none
unfolding new_metrics_server
never_returns = refl

-- A second call gives the first server back, whatever address it is given.
abbrev dialled : Globals
dialled = record {
  metrics_server = some (codes ":8125");
  extra_json_labels = some ((codes "event_type", codes "x") ∷ []);
  extra_file_labels = none;
}

first_server : (new_metrics_server world (codes ":9") dialled).1 ≡ some (some (codes ":8125"))
unfolding new_metrics_server
first_server = refl

abbrev hostname : Str → Str
hostname name = name

abbrev event : Dict Str
event = (codes "event_type", codes "y") ∷ (codes "process_name", web) ∷ []

push_health_run-cases_example :
    push_health_run hostname dialled (some (codes ":8125")) false web (codes "TCP") false ≡ (
      if is_some (some (codes ":8125")) && (not false || false)
      then metric_of hostname dialled
          (codes "readiness")
          (codes "event")
          1
          (probe_labels web (codes "TCP") false)
        ∷ []
      else [])
push_health_run-cases_example =
    push_health_run-cases hostname dialled (some (codes ":8125")) false web (codes "TCP") false
