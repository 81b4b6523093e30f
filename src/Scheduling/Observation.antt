-- ===== src/Scheduling/Observation.antt =====
-- core/diagnostics.rs: `ObservationStats` and its snapshot. The counters wrap around.
use service_daemon_rs.Prelude.{
  ℕ, ◌/◌, min, max, Bool, true, false, List, [], ◌∷◌, if◌then◌else◌, ◌==◌,
}
use service_daemon_rs.Prelude.Words.{u64_max, wrapping_add64}

pub data SleepExitReason : Type 0 where
  completed reload shutdown probe_cancelled : SleepExitReason

-- `SleepExitReason::completed`.
abbrev pub is_completed : SleepExitReason → Bool
is_completed SleepExitReason.completed = true
is_completed r = false

pub record ObservationStats : Type 0 where
  pub completed : ℕ
  pub interrupted : ℕ
  pub total_requested_ns : ℕ
  pub total_elapsed_ns : ℕ
  pub total_drift_ns : ℕ
  pub max_drift_ns : ℕ
  pub last_drift_ns : ℕ

-- `duration_nanos` and `nanos_to_millis`.
abbrev pub duration_nanos : ℕ → ℕ
duration_nanos duration = min duration u64_max

abbrev pub nanos_to_millis : ℕ → ℕ
nanos_to_millis nanos = nanos / 1_000_000

-- One observed sleep: why it ended, and the durations.
pub record Observed : Type 0 where
  pub reason : SleepExitReason
  pub requested : ℕ
  pub elapsed : ℕ
  pub drift : ℕ

-- `ObservationStats::record`, with `update_max` of the greatest drift.
unfoldable pub observe : ObservationStats → Observed → ObservationStats
observe s o =
    let t = record s {
      total_requested_ns = wrapping_add64 s.total_requested_ns (duration_nanos o.requested);
      total_elapsed_ns = wrapping_add64 s.total_elapsed_ns (duration_nanos o.elapsed);
    } in
    let drift_ns = duration_nanos o.drift in
    if is_completed o.reason
    then record t {
      completed = wrapping_add64 s.completed 1;
      total_drift_ns = wrapping_add64 s.total_drift_ns drift_ns;
      last_drift_ns = drift_ns;
      max_drift_ns = max s.max_drift_ns drift_ns;
    }
    else record t { interrupted = wrapping_add64 s.interrupted 1 }

pub record ObservationStatsSnapshot : Type 0 where
  pub completed : ℕ
  pub interrupted : ℕ
  pub total_requested_ms : ℕ
  pub total_elapsed_ms : ℕ
  pub total_drift_ms : ℕ
  pub max_drift_ms : ℕ
  pub last_drift_ms : ℕ
  pub avg_drift_ms : ℕ

-- `total.checked_div(count)`, or 0.
abbrev pub div_or_zero : ℕ → ℕ → ℕ
div_or_zero total count = if count == 0 then 0 else total / count

-- `ObservationStats::snapshot`.
unfoldable pub snapshot : ObservationStats → ObservationStatsSnapshot
snapshot s = record {
  completed = s.completed;
  interrupted = s.interrupted;
  total_requested_ms = nanos_to_millis s.total_requested_ns;
  total_elapsed_ms = nanos_to_millis s.total_elapsed_ns;
  total_drift_ms = nanos_to_millis s.total_drift_ns;
  max_drift_ms = nanos_to_millis s.max_drift_ns;
  last_drift_ms = nanos_to_millis s.last_drift_ns;
  avg_drift_ms = nanos_to_millis (div_or_zero s.total_drift_ns s.completed);
}

unfoldable pub observe_all : ObservationStats → List Observed → ObservationStats
observe_all s [] = s
observe_all s (o ∷ rest) = observe_all (observe s o) rest
