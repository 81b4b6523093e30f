-- ===== src/Scheduling/Window.antt =====
-- core/adaptive_scheduling.rs: `ObservationWindow`, `LifecycleWindow`, `DiagnosticsAggregateWindow` and
-- the functions that make them from two snapshots.
pub mod Counts
use service_daemon_rs.Prelude.{
  ℕ, ◌-◌, Bool, true, false, ◌&&◌, Option, none, some, ltb, map_or, if◌then◌else◌,
}
use service_daemon_rs.Diagnostics.{LifecycleStats}
use service_daemon_rs.Scheduling.Observation.{ObservationStatsSnapshot, div_or_zero}

pub record ObservationWindow : Type 0 where
  pub completed : ℕ
  pub interrupted : ℕ
  pub total_requested_ms : ℕ
  pub total_elapsed_ms : ℕ
  pub total_drift_ms : ℕ
  pub proven_max_drift_ms : Option ℕ
  pub last_drift_ms : ℕ
  pub avg_drift_ms : ℕ

pub record LifecycleWindow : Type 0 where
  pub reload_requested : ℕ
  pub reload_exit : ℕ
  pub restart : ℕ
  pub backoff_restart : ℕ
  pub rate_limited_restart : ℕ
  pub terminated : ℕ
  pub normal_exit : ℕ
  pub recoverable_error : ℕ
  pub panic : ℕ
  pub fatal_service_error : ℕ
  pub provider_init_error : ℕ
  pub shutdown : ℕ
  pub isolated_startup_failure : ℕ
  pub last_policy_delay_ms : ℕ
  pub last_effective_restart_delay_ms : ℕ

pub record DiagnosticsAggregateWindow : Type 0 where
  pub service_sleep : ObservationWindow
  pub runtime_probe : ObservationWindow
  pub lifecycle : LifecycleWindow

-- The parts of `DiagnosticsAggregateSnapshot` that a window reads.
pub record DiagnosticsAggregateSnapshot : Type 0 where
  pub service_sleep : ObservationStatsSnapshot
  pub runtime_probe : ObservationStatsSnapshot
  pub lifecycle : LifecycleStats

-- `delta`.
abbrev pub delta : Option ℕ → ℕ → ℕ
delta none current = current
delta (some previous) current = current - previous

-- `previous.map(|snapshot| snapshot.field)`.
abbrev pub field : {A B : Type 0} → Option A → (A → B) → Option B
field none f = none
field (some a) f = some (f a)

-- `proven_max_drift_ms` of `observation_window`.
abbrev pub proven_max : Option ObservationStatsSnapshot → ObservationStatsSnapshot → ℕ → Option ℕ
proven_max none current completed = if ltb 0 completed then some current.max_drift_ms else none
proven_max (some previous) current completed =
    if ltb 0 completed && ltb previous.max_drift_ms current.max_drift_ms
    then some current.max_drift_ms
    else none

unfoldable pub observation_window :
    Option ObservationStatsSnapshot → ObservationStatsSnapshot → ObservationWindow
observation_window previous current =
    let completed = delta (field previous λ s. s.completed) current.completed in
    let total_drift_ms = delta (field previous λ s. s.total_drift_ms) current.total_drift_ms in
    record {
      completed = completed;
      interrupted = delta (field previous λ s. s.interrupted) current.interrupted;
      total_requested_ms =
          delta (field previous λ s. s.total_requested_ms) current.total_requested_ms;
      total_elapsed_ms = delta (field previous λ s. s.total_elapsed_ms) current.total_elapsed_ms;
      total_drift_ms = total_drift_ms;
      proven_max_drift_ms = proven_max previous current completed;
      last_drift_ms = if ltb 0 completed then current.last_drift_ms else 0;
      avg_drift_ms = div_or_zero total_drift_ms completed;
    }

unfoldable pub lifecycle_window : Option LifecycleStats → LifecycleStats → LifecycleWindow
lifecycle_window previous current = record {
  reload_requested = delta (field previous λ s. s.reload_requested) current.reload_requested;
  reload_exit = delta (field previous λ s. s.reload_exit) current.reload_exit;
  restart = delta (field previous λ s. s.restart) current.restart;
  backoff_restart = delta (field previous λ s. s.backoff_restart) current.backoff_restart;
  rate_limited_restart =
      delta (field previous λ s. s.rate_limited_restart) current.rate_limited_restart;
  terminated = delta (field previous λ s. s.terminated) current.terminated;
  normal_exit = delta (field previous λ s. s.normal_exit) current.normal_exit;
  recoverable_error = delta (field previous λ s. s.recoverable_error) current.recoverable_error;
  panic = delta (field previous λ s. s.panic) current.panic;
  fatal_service_error =
      delta (field previous λ s. s.fatal_service_error) current.fatal_service_error;
  provider_init_error =
      delta (field previous λ s. s.provider_init_error) current.provider_init_error;
  shutdown = delta (field previous λ s. s.shutdown) current.shutdown;
  isolated_startup_failure =
      delta (field previous λ s. s.isolated_startup_failure) current.isolated_startup_failure;
  last_policy_delay_ms = current.last_policy_delay_ms;
  last_effective_restart_delay_ms = current.last_effective_restart_delay_ms;
}

unfoldable pub aggregate_window :
    Option DiagnosticsAggregateSnapshot → DiagnosticsAggregateSnapshot → DiagnosticsAggregateWindow
aggregate_window previous current = record {
  service_sleep = observation_window (field previous λ s. s.service_sleep) current.service_sleep;
  runtime_probe = observation_window (field previous λ s. s.runtime_probe) current.runtime_probe;
  lifecycle = lifecycle_window (field previous λ s. s.lifecycle) current.lifecycle;
}
