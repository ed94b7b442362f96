-- ===== src/Registry.antt =====
-- The metrics of the wrapper itself: `init` of pkg/metrics/metrics.go, and the updates that
-- pkg/process makes. The Prometheus client is a parameter.
pub mod Accepted
mod Examples
use process_wrapper.Prelude.{
  suc, ℕ, ◌≡◌, ◌≢◌, Bool, true, false, List, [], ◌∷◌, Str, codes, length, str_eq,
}
use process_wrapper.Prelude.Int.{ℤ, pos, negsuc}
use process_wrapper.Prelude.Decimal.{decimal}
use process_wrapper.Prelude.Float.{Float}
use process_wrapper.Action.{Label, failed_probe, success_probe, restarted, oom}
use process_wrapper.Command.{Command, to_string}

pub data Kind : Type 0 where
  counter gauge histogram : Kind

-- `CounterVec`, `GaugeVec`, `HistogramVec`
pub record Collector : Type 0 where
  pub name : Str
  pub kind : Kind
  pub labels : List Str

abbrev per_command : List Str
per_command = codes "status" ∷ codes "process_name" ∷ codes "cmd" ∷ []

abbrev per_process : List Str
per_process = codes "process_name" ∷ []

abbrev pub readiness_name : Str
readiness_name = codes "sidecar_cmd_readiness_count"

abbrev pub acquire_lock_total_name : Str
acquire_lock_total_name = codes "sidecar_cmd_acquire_lock_total"

abbrev pub duration_seconds_name : Str
duration_seconds_name = codes "sidecar_cmd_duration_seconds"

abbrev pub heart_beat_period_name : Str
heart_beat_period_name = codes "sidecar_cmd_heartbeat_period_seconds"

abbrev pub cpu_seconds_name : Str
cpu_seconds_name = codes "sidecar_cmd_cpu_usage_seconds"

abbrev pub cpu_seconds_gauge_name : Str
cpu_seconds_gauge_name = codes "sidecar_cmd_cpu_usage_seconds_gauge"

abbrev pub memory_usage_name : Str
memory_usage_name = codes "sidecar_cmd_memory_usage_bytes"

abbrev pub merge_duration_seconds_bucket_name : Str
merge_duration_seconds_bucket_name = codes "sidecar_metrics_merge_duration_seconds"

abbrev pub readiness_count : Collector
readiness_count = record { name = readiness_name; kind = counter; labels = per_command }

abbrev pub acquire_lock_total : Collector
acquire_lock_total = record { name = acquire_lock_total_name; kind = counter; labels = per_command }

abbrev pub duration_seconds_gauge : Collector
duration_seconds_gauge = record {
  name = duration_seconds_name;
  kind = gauge;
  labels = codes "process_name" ∷ codes "exit_code" ∷ [];
}

abbrev pub heart_beat_period_gauge : Collector
heart_beat_period_gauge = record {
  name = heart_beat_period_name;
  kind = gauge;
  labels = per_process;
}

abbrev pub cpu_seconds : Collector
cpu_seconds = record { name = cpu_seconds_name; kind = counter; labels = per_process }

abbrev pub cpu_seconds_gauge : Collector
cpu_seconds_gauge = record { name = cpu_seconds_gauge_name; kind = gauge; labels = per_process }

abbrev pub memory_usage_gauge : Collector
memory_usage_gauge = record { name = memory_usage_name; kind = gauge; labels = per_process }

abbrev pub merge_duration_seconds_bucket : Collector
merge_duration_seconds_bucket = record {
  name = merge_duration_seconds_bucket_name;
  kind = histogram;
  labels = [];
}

-- What `init` registers.
abbrev pub registered : List Collector
registered =
    acquire_lock_total ∷ readiness_count ∷ duration_seconds_gauge ∷ cpu_seconds ∷ cpu_seconds_gauge
    ∷ memory_usage_gauge ∷ heart_beat_period_gauge ∷ merge_duration_seconds_bucket ∷ []

pub data Change {ℓ} (F : Type ℓ) : Type ℓ where
  inc : Change F
  add : F → Change F
  set : F → Change F
  observe : F → Change F

-- `collector.WithLabelValues(values...)`, and the method that is called on it.
pub record Update {ℓ} (F : Type ℓ) : Type ℓ where
  pub collector : Collector
  pub values : List Str
  pub change : Change F

abbrev pub status : Label → Str
status failed_probe = codes "failed"
status success_probe = codes "success"
status restarted = codes "restart"
status oom = codes "oom"

-- `fmt.Sprintf("%v", code)`
abbrev pub exit_code_text : ℤ → Str
exit_code_text (pos n) = decimal n
exit_code_text (negsuc n) = b'-' ∷ decimal (suc n)

module _ {ℓ} {F : Type ℓ} where
  -- The count of an action `count_label`.
  unfoldable pub count_status : Command → Label → Update F
  unfolding to_string
  count_status c l = record {
    collector = readiness_count;
    values = status l ∷ c.name ∷ to_string c ∷ [];
    change = inc;
  }

  unfoldable pub count_lock : Command → Update F
  unfolding to_string
  count_lock c = record {
    collector = acquire_lock_total;
    values = codes "success" ∷ c.name ∷ to_string c ∷ [];
    change = inc;
  }

  unfoldable pub set_duration : Command → ℤ → F → Update F
  set_duration c code seconds = record {
    collector = duration_seconds_gauge;
    values = c.name ∷ exit_code_text code ∷ [];
    change = set seconds;
  }

  unfoldable pub set_heart_beat_period : Str → F → Update F
  set_heart_beat_period name seconds = record {
    collector = heart_beat_period_gauge;
    values = name ∷ [];
    change = set seconds;
  }

  unfoldable pub observe_merge : F → Update F
  observe_merge seconds = record {
    collector = merge_duration_seconds_bucket;
    values = [];
    change = observe seconds;
  }

  unfoldable pub add_cpu : Command → F → Update F
  add_cpu c delta = record { collector = cpu_seconds; values = c.name ∷ []; change = add delta }

  unfoldable pub set_cpu : Command → F → Update F
  set_cpu c seconds = record {
    collector = cpu_seconds_gauge;
    values = c.name ∷ [];
    change = set seconds;
  }

  unfoldable pub set_memory : Command → F → Update F
  set_memory c bytes = record {
    collector = memory_usage_gauge;
    values = c.name ∷ [];
    change = set bytes;
  }
