-- ===== src/Diagnostics/Failures.antt =====
-- service-daemon/src/core/diagnostics.rs: what a provider's failure is recorded as, the counters of
-- such failures (`ProviderFailureStats`) and those of the ends of a shutdown
-- (`ShutdownBoundaryStats`). A text is the list of its code points.
use service_daemon_rs.Prelude.{ℕ, Option, none, some, List}
use service_daemon_rs.Prelude.Words.{wrapping_add64}
use service_daemon_rs.Diagnostics.{bump}

pub data ProviderFailureRuntimePhase : Type 0 where
  unknown startup_eager_init service_generation_resolve reload_generation_resolve
        trigger_dispatch_resolve framework_validation :
      ProviderFailureRuntimePhase

pub data ProviderFailureBoundaryKind : Type 0 where
  snapshot_resolve rw_lock_resolve mutex_resolve eager_init framework_validation :
      ProviderFailureBoundaryKind

pub data ProviderFailureSourceKind : Type 0 where
  user_provider_fatal user_provider_retryable_timeout environment_missing environment_parse
        dependency_provider panic cancelled timeout framework_graph_validation framework_eager_init
        system_io_fatal system_io_retryable unknown :
      ProviderFailureSourceKind

pub data ProviderFailureKind : Type 0 where
  fatal timeout cancelled : ProviderFailureKind

pub record ProviderFailureRetryDiagnosticsSnapshot : Type 0 where
  pub attempts : ℕ
  pub elapsed_ms : ℕ
  pub last_delay_ms : Option ℕ
  pub recent_errors : List (List ℕ)

pub record ProviderFailureSnapshot : Type 0 where
  pub provider : List ℕ
  pub phase : ProviderFailureRuntimePhase
  pub boundary : ProviderFailureBoundaryKind
  pub source : ProviderFailureSourceKind
  pub failure_kind : ProviderFailureKind
  pub retry : Option ProviderFailureRetryDiagnosticsSnapshot
  pub error : List ℕ

pub record ProviderFailureStats : Type 0 where
  pub total : ℕ
  pub fatal : ℕ
  pub timeout : ℕ
  pub cancelled : ℕ
  pub last_failure : Option ProviderFailureSnapshot

-- `Default for ProviderFailureStats`.
abbrev pub no_failures : ProviderFailureStats
no_failures = record { total = 0; fatal = 0; timeout = 0; cancelled = 0; last_failure = none }

-- The counter of one kind.
abbrev pub count_failure : ProviderFailureKind → ProviderFailureStats → ProviderFailureStats
count_failure ProviderFailureKind.fatal s = record s { fatal = bump s.fatal }
count_failure ProviderFailureKind.timeout s = record s { timeout = bump s.timeout }
count_failure ProviderFailureKind.cancelled s = record s { cancelled = bump s.cancelled }

-- `ProviderFailureStats::record`.
unfoldable pub record_failure :
    ProviderFailureSnapshot → ProviderFailureStats → ProviderFailureStats
record_failure failure s =
    record (count_failure failure.failure_kind (record s { total = bump s.total })) {
      last_failure = some failure;
    }

pub data ShutdownBoundaryKind : Type 0 where
  isolated_runtime_join trigger_dispatch_drain : ShutdownBoundaryKind

pub data ShutdownBoundaryResultKind : Type 0 where
  completed timed_out panicked : ShutdownBoundaryResultKind

pub data ShutdownResidualActionKind : Type 0 where
  nothing recorded_and_detached : ShutdownResidualActionKind

pub record ShutdownBoundaryOutcomeSnapshot : Type 0 where
  pub boundary : ShutdownBoundaryKind
  pub result : ShutdownBoundaryResultKind
  pub action : ShutdownResidualActionKind
  pub completed : ℕ
  pub failed : ℕ
  pub residual : ℕ

pub record ShutdownBoundaryStats : Type 0 where
  pub completed : ℕ
  pub timed_out : ℕ
  pub panicked : ℕ
  pub residual : ℕ
  pub last_outcome : Option ShutdownBoundaryOutcomeSnapshot

-- `Default for ShutdownBoundaryStats`.
abbrev pub no_boundaries : ShutdownBoundaryStats
no_boundaries = record {
  completed = 0;
  timed_out = 0;
  panicked = 0;
  residual = 0;
  last_outcome = none;
}

-- The counter of one result.
abbrev pub count_boundary :
    ShutdownBoundaryResultKind → ShutdownBoundaryStats → ShutdownBoundaryStats
count_boundary ShutdownBoundaryResultKind.completed s = record s { completed = bump s.completed }
count_boundary ShutdownBoundaryResultKind.timed_out s = record s { timed_out = bump s.timed_out }
count_boundary ShutdownBoundaryResultKind.panicked s = record s { panicked = bump s.panicked }

-- `ShutdownBoundaryStats::record`.
unfoldable pub record_boundary :
    ShutdownBoundaryOutcomeSnapshot → ShutdownBoundaryStats → ShutdownBoundaryStats
record_boundary outcome s = record (count_boundary outcome.result s) {
  residual = wrapping_add64 s.residual outcome.residual;
  last_outcome = some outcome;
}
