-- ===== src/ProviderInit.antt =====
-- core/provider_init.rs: the words in which an initialisation's failure is told, their conversions
-- to the words of core/diagnostics.rs, and `ProviderInitFailure`; and `ProviderInitError` of models/error.rs and
-- `ProviderError` of models/provider_error.rs. A text is the list of its code points.
pub mod Boundary
pub mod Retry
use service_daemon_rs.Prelude.{ℕ, Option, none, List}
use service_daemon_rs.Diagnostics.Failures.{
  ProviderFailureBoundaryKind, ProviderFailureRuntimePhase, ProviderFailureSourceKind,
  ProviderFailureKind,
}

pub data ProviderInitBoundaryKind : Type 0 where
  snapshot_resolve rw_lock_resolve mutex_resolve eager_init framework_validation :
      ProviderInitBoundaryKind

-- `From<ProviderInitBoundaryKind> for ProviderFailureBoundaryKind`.
unfoldable pub boundary_from : ProviderInitBoundaryKind → ProviderFailureBoundaryKind
boundary_from ProviderInitBoundaryKind.snapshot_resolve =
    ProviderFailureBoundaryKind.snapshot_resolve
boundary_from ProviderInitBoundaryKind.rw_lock_resolve = ProviderFailureBoundaryKind.rw_lock_resolve
boundary_from ProviderInitBoundaryKind.mutex_resolve = ProviderFailureBoundaryKind.mutex_resolve
boundary_from ProviderInitBoundaryKind.eager_init = ProviderFailureBoundaryKind.eager_init
boundary_from ProviderInitBoundaryKind.framework_validation =
    ProviderFailureBoundaryKind.framework_validation

pub data ProviderRuntimePhase : Type 0 where
  unknown startup_eager_init service_generation_resolve reload_generation_resolve
        trigger_dispatch_resolve framework_validation :
      ProviderRuntimePhase

-- `From<ProviderRuntimePhase> for ProviderFailureRuntimePhase`.
unfoldable pub phase_from : ProviderRuntimePhase → ProviderFailureRuntimePhase
phase_from ProviderRuntimePhase.unknown = ProviderFailureRuntimePhase.unknown
phase_from ProviderRuntimePhase.startup_eager_init = ProviderFailureRuntimePhase.startup_eager_init
phase_from ProviderRuntimePhase.service_generation_resolve =
    ProviderFailureRuntimePhase.service_generation_resolve
phase_from ProviderRuntimePhase.reload_generation_resolve =
    ProviderFailureRuntimePhase.reload_generation_resolve
phase_from ProviderRuntimePhase.trigger_dispatch_resolve =
    ProviderFailureRuntimePhase.trigger_dispatch_resolve
phase_from ProviderRuntimePhase.framework_validation =
    ProviderFailureRuntimePhase.framework_validation

pub data ProviderInitSourceKind : Type 0 where
  user_provider_fatal user_provider_retryable_timeout environment_missing environment_parse
        dependency_provider panic cancelled timeout framework_graph_validation framework_eager_init
        system_io_fatal system_io_retryable unknown :
      ProviderInitSourceKind

-- `From<ProviderInitSourceKind> for ProviderFailureSourceKind`.
unfoldable pub source_from : ProviderInitSourceKind → ProviderFailureSourceKind
source_from ProviderInitSourceKind.user_provider_fatal =
    ProviderFailureSourceKind.user_provider_fatal
source_from ProviderInitSourceKind.user_provider_retryable_timeout =
    ProviderFailureSourceKind.user_provider_retryable_timeout
source_from ProviderInitSourceKind.environment_missing =
    ProviderFailureSourceKind.environment_missing
source_from ProviderInitSourceKind.environment_parse = ProviderFailureSourceKind.environment_parse
source_from ProviderInitSourceKind.dependency_provider =
    ProviderFailureSourceKind.dependency_provider
source_from ProviderInitSourceKind.panic = ProviderFailureSourceKind.panic
source_from ProviderInitSourceKind.cancelled = ProviderFailureSourceKind.cancelled
source_from ProviderInitSourceKind.timeout = ProviderFailureSourceKind.timeout
source_from ProviderInitSourceKind.framework_graph_validation =
    ProviderFailureSourceKind.framework_graph_validation
source_from ProviderInitSourceKind.framework_eager_init =
    ProviderFailureSourceKind.framework_eager_init
source_from ProviderInitSourceKind.system_io_fatal = ProviderFailureSourceKind.system_io_fatal
source_from ProviderInitSourceKind.system_io_retryable =
    ProviderFailureSourceKind.system_io_retryable
source_from ProviderInitSourceKind.unknown = ProviderFailureSourceKind.unknown

-- The failure of one attempt, as the provider's code returns it.
pub data ProviderError : Type 0 where
  fatal retryable : List ℕ → ProviderError

pub data ProviderInitError : Type 0 where
  fatal : (provider message : List ℕ) → ProviderInitError
  timeout : (provider : List ℕ) (timeout : ℕ) (last_error : List ℕ) → ProviderInitError
  cancelled : (provider : List ℕ) → ProviderInitError

pub record ProviderInitRetryDiagnostics : Type 0 where
  pub attempts : ℕ
  pub elapsed : ℕ
  pub last_delay : Option ℕ
  pub recent_errors : List (List ℕ)

pub record ProviderInitFailure : Type 0 where
  pub source : ProviderInitSourceKind
  pub error : ProviderInitError
  pub retry_diagnostics : Option ProviderInitRetryDiagnostics

-- `ProviderInitFailure::new`, `fatal` and `cancelled`.
abbrev pub new : ProviderInitSourceKind → ProviderInitError → ProviderInitFailure
new source error = record { source = source; error = error; retry_diagnostics = none }

abbrev pub fatal_failure : List ℕ → List ℕ → ProviderInitSourceKind → ProviderInitFailure
fatal_failure provider message source = new source (ProviderInitError.fatal provider message)

abbrev pub cancelled_failure : List ℕ → ProviderInitFailure
cancelled_failure provider =
    new ProviderInitSourceKind.cancelled (ProviderInitError.cancelled provider)

-- `From<ProviderInitError> for ProviderInitFailure`.
abbrev pub failure_from : ProviderInitError → ProviderInitFailure
failure_from error = new ProviderInitSourceKind.unknown error

pub data ProviderInitFailureKind : Type 0 where
  fatal timeout cancelled : ProviderInitFailureKind

-- `From<ProviderInitFailureKind> for ProviderFailureKind`.
abbrev pub kind_from : ProviderInitFailureKind → ProviderFailureKind
kind_from ProviderInitFailureKind.fatal = ProviderFailureKind.fatal
kind_from ProviderInitFailureKind.timeout = ProviderFailureKind.timeout
kind_from ProviderInitFailureKind.cancelled = ProviderFailureKind.cancelled

unfoldable pub classify_provider_init_error : ProviderInitError → ProviderInitFailureKind
classify_provider_init_error (ProviderInitError.fatal provider message) =
    ProviderInitFailureKind.fatal
classify_provider_init_error (ProviderInitError.timeout provider limit last_error) =
    ProviderInitFailureKind.timeout
classify_provider_init_error (ProviderInitError.cancelled provider) =
    ProviderInitFailureKind.cancelled
