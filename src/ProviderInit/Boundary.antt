-- ===== src/ProviderInit/Boundary.antt =====
-- core/provider_init.rs: where a failure crosses the boundary of the initialisation. The snapshot that
-- is made of it, with the phase of the running task, is recorded for the generation and for the
-- daemon, where the task has their diagnostics.
pub mod Crossings
use service_daemon_rs.Prelude.{
  ℕ, Bool, true, false, Option, none, some, List, ◌&&◌, if◌then◌else◌, map_or, Result, ok, err,
  map_err,
}
use service_daemon_rs.Prelude.Recent.{push_recent}
use service_daemon_rs.RuntimeFacts.{ServiceStatus}
use service_daemon_rs.Diagnostics.{duration_millis}
use service_daemon_rs.Diagnostics.Failures.{
  ProviderFailureRetryDiagnosticsSnapshot, ProviderFailureSnapshot, ProviderFailureStats,
  record_failure,
}
use service_daemon_rs.ProviderInit.{
  ProviderInitBoundaryKind, boundary_from, ProviderRuntimePhase, phase_from, source_from,
  ProviderInitError, ProviderInitRetryDiagnostics, ProviderInitFailure, failure_from, kind_from,
  classify_provider_init_error,
}

-- The task-local state that the boundary reads and changes: `CURRENT_PROVIDER_RUNTIME_PHASE`, where a
-- scope has set it, `context::state()`, the failures of the generation, of its service and of its
-- lane, and the recent failures of the daemon.
pub record GenerationFailures : Type 0 where
  pub generation : ProviderFailureStats
  pub service : ProviderFailureStats
  pub lane : ProviderFailureStats

pub record TaskContext : Type 0 where
  pub phase : Option ProviderRuntimePhase
  pub state : ServiceStatus
  pub generation_diagnostics : Option GenerationFailures
  pub daemon_diagnostics : Option (List ProviderFailureSnapshot)

abbrev pub need_reload : ServiceStatus → Bool
need_reload ServiceStatus.need_reload = true
need_reload status = false

abbrev pub is_generation_resolve : ProviderRuntimePhase → Bool
is_generation_resolve ProviderRuntimePhase.service_generation_resolve = true
is_generation_resolve phase = false

abbrev pub is_unknown : ProviderRuntimePhase → Bool
is_unknown ProviderRuntimePhase.unknown = true
is_unknown phase = false

unfoldable pub current_provider_runtime_phase : TaskContext → ProviderRuntimePhase
current_provider_runtime_phase task =
    let phase = map_or task.phase ProviderRuntimePhase.unknown λ phase. phase in
    if is_generation_resolve phase && need_reload task.state
    then ProviderRuntimePhase.reload_generation_resolve
    else phase

pub record ProviderInitBoundaryContext : Type 0 where
  pub provider : List ℕ
  pub phase : ProviderRuntimePhase
  pub boundary : ProviderInitBoundaryKind

-- `ProviderInitBoundaryContext::with_current_phase`.
unfoldable pub with_current_phase :
    TaskContext → ProviderInitBoundaryContext → ProviderInitBoundaryContext
with_current_phase task context =
    if is_unknown context.phase
    then record context { phase = current_provider_runtime_phase task }
    else context

abbrev pub provider_failure_retry_diagnostics_snapshot :
    ProviderInitRetryDiagnostics → ProviderFailureRetryDiagnosticsSnapshot
provider_failure_retry_diagnostics_snapshot diagnostics = record {
  attempts = diagnostics.attempts;
  elapsed_ms = duration_millis diagnostics.elapsed;
  last_delay_ms = map_or diagnostics.last_delay none λ delay. some (duration_millis delay);
  recent_errors = diagnostics.recent_errors;
}

-- `RETAINED_PROVIDER_FAILURES` of core/diagnostics.rs.
abbrev pub retained_provider_failures : ℕ
retained_provider_failures = 128

-- `GenerationDiagnosticsHandle::record_provider_failure`.
unfoldable pub record_for_generation :
    ProviderFailureSnapshot → GenerationFailures → GenerationFailures
record_for_generation failure g = record {
  generation = record_failure failure g.generation;
  service = record_failure failure g.service;
  lane = record_failure failure g.lane;
}

-- `DiagnosticsStore::record_provider_failure`.
unfoldable pub record_for_daemon :
    ProviderFailureSnapshot → List ProviderFailureSnapshot → List ProviderFailureSnapshot
record_for_daemon failure failures = push_recent retained_provider_failures failure failures

unfoldable pub record_provider_failure_diagnostics :
    ProviderFailureSnapshot → TaskContext → TaskContext
record_provider_failure_diagnostics failure task = record task {
  generation_diagnostics =
      map_or task.generation_diagnostics none λ g. some (record_for_generation failure g);
  daemon_diagnostics =
      map_or task.daemon_diagnostics none λ failures. some (record_for_daemon failure failures);
}

-- `to_string` is the `Display` that thiserror derives.
module _ (to_string : ProviderInitError → List ℕ) where
  unfoldable pub provider_failure_snapshot :
      TaskContext → ProviderInitBoundaryContext → ProviderInitFailure → ProviderFailureSnapshot
  provider_failure_snapshot task given failure =
      let context = with_current_phase task given in
      record {
        provider = context.provider;
        phase = phase_from context.phase;
        boundary = boundary_from context.boundary;
        source = source_from failure.source;
        failure_kind = kind_from (classify_provider_init_error failure.error);
        retry =
            map_or failure.retry_diagnostics none
              λ diagnostics. some (provider_failure_retry_diagnostics_snapshot diagnostics);
        error = to_string failure.error;
      }

  unfoldable pub provider_init_failure_into_error :
      TaskContext
      → ProviderInitBoundaryContext
      → ProviderInitFailure
      → TaskContext × ProviderInitError
  provider_init_failure_into_error task context failure = (
    record_provider_failure_diagnostics (provider_failure_snapshot task context failure) task,
    failure.error,
  )

  unfoldable pub provider_init_failure_boundary {ℓ} :
      {T : Type ℓ}
      → TaskContext
      → ProviderInitBoundaryContext
      → Result T ProviderInitFailure
      → TaskContext × Result T ProviderInitError
  provider_init_failure_boundary task context (ok value) = (task, ok value)
  provider_init_failure_boundary task context (err failure) =
      let (task', error) = provider_init_failure_into_error task context failure in
      (task', err error)

  unfoldable pub provider_init_boundary {ℓ} :
      {T : Type ℓ}
      → TaskContext
      → ProviderInitBoundaryContext
      → Result T ProviderInitError
      → TaskContext × Result T ProviderInitError
  unfolding provider_init_failure_boundary
  provider_init_boundary task context result =
      provider_init_failure_boundary task context (map_err failure_from result)
