-- ===== src/Supervisor/Exit.antt =====
-- core/service_daemon/runner/supervisor.rs: how a generation ended, the states of the supervisor and
-- what `handle_outcome` makes of an end. The texts that `format!` makes are a parameter.
use service_daemon_rs.Prelude.{ℕ, Bool, true, false, List, Result, ok, err, if◌then◌else◌}
use service_daemon_rs.Diagnostics.{GenerationExitKind, RestartDecisionKind}
use service_daemon_rs.RuntimeFacts.{ServiceStatus}

pub data TriggerDispatchFailureKind : Type 0 where
  handler_retry_exhausted dispatch_task_error dispatch_task_panic dispatch_task_cancelled
        dispatch_permit_acquire_failed dispatch_timed_out scale_monitor_failed :
      TriggerDispatchFailureKind

-- An `anyhow::Error` by what it downcasts to: `ServiceError::Fatal`, `ProviderInitError`,
-- `IsolatedGenerationStartupError`, `TriggerDispatchFailure` (its kind and the trigger's name), or
-- anything else.
pub data Error : Type 0 where
  fatal : List ℕ → Error
  provider_init : List ℕ → Error
  isolated_startup : List ℕ → Error
  trigger_dispatch : TriggerDispatchFailureKind → List ℕ → List ℕ → Error
  other : List ℕ → Error

-- What a panicked task carries.
pub data Panic : Type 0 where
  text : List ℕ → Panic
  unknown : Panic

-- `Result<Result<(), Error>, Box<dyn Any + Send>>`.
abbrev pub ServiceGenerationOutcome : Type 0
ServiceGenerationOutcome = Result (Result (Unit {0}) Error) Panic

pub data GenerationResultKind : Type 0 where
  normal_exit recoverable_error panic fatal_service_error provider_init_error reload
        isolated_startup_failure :
      GenerationResultKind

-- `GenerationResultKind::diagnostics_exit_kind`.
abbrev pub diagnostics_exit_kind : GenerationResultKind → GenerationExitKind
diagnostics_exit_kind GenerationResultKind.normal_exit = GenerationExitKind.normal_exit
diagnostics_exit_kind GenerationResultKind.recoverable_error = GenerationExitKind.recoverable_error
diagnostics_exit_kind GenerationResultKind.panic = GenerationExitKind.panic
diagnostics_exit_kind GenerationResultKind.fatal_service_error =
    GenerationExitKind.fatal_service_error
diagnostics_exit_kind GenerationResultKind.provider_init_error =
    GenerationExitKind.provider_init_error
diagnostics_exit_kind GenerationResultKind.reload = GenerationExitKind.reload
diagnostics_exit_kind GenerationResultKind.isolated_startup_failure =
    GenerationExitKind.isolated_startup_failure

pub record GenerationSignalFacts : Type 0 where
  pub reload_requested : Bool
  pub shutdown_requested : Bool

pub data RestartFailureKind : Type 0 where
  recoverable_error panic isolated_startup_failure internal_supervisor_error : RestartFailureKind

pub data RestartDecision : Type 0 where
  immediate : RestartDecision
  with_backoff : RestartFailureKind → RestartDecision

-- `RestartDecision::diagnostics_kind`.
abbrev pub diagnostics_kind : RestartDecision → RestartDecisionKind
diagnostics_kind RestartDecision.immediate = RestartDecisionKind.immediate
diagnostics_kind (with_backoff RestartFailureKind.recoverable_error) =
    RestartDecisionKind.backoff_recoverable_error
diagnostics_kind (with_backoff RestartFailureKind.panic) = RestartDecisionKind.backoff_panic
diagnostics_kind (with_backoff RestartFailureKind.isolated_startup_failure) =
    RestartDecisionKind.backoff_isolated_startup_failure
diagnostics_kind (with_backoff RestartFailureKind.internal_supervisor_error) =
    RestartDecisionKind.backoff_internal_supervisor_error

pub record GenerationExitRecord : Type 0 where
  pub next_status : ServiceStatus
  pub should_restart : Bool
  pub should_shutdown_daemon : Bool
  pub restart_decision : RestartDecision
  pub result : GenerationResultKind
  pub signals : GenerationSignalFacts

pub data SupervisorState : Type 0 where
  starting running : SupervisorState
  outcome : ServiceGenerationOutcome → SupervisorState
  restart : RestartDecision → SupervisorState
  terminated : SupervisorState

-- The texts that `format!` makes in the supervisor.
pub record Texts : Type 0 where
  pub debug : Error → List ℕ
  pub dispatch_failure : TriggerDispatchFailureKind → List ℕ → Error → List ℕ
  pub panicked : List ℕ → List ℕ
  pub unknown_panic : List ℕ
  pub no_reload_token : List ℕ
  pub no_diagnostics : List ℕ
  pub no_body_lane : List ℕ

-- The `match trigger_failure.kind()` of `handle_outcome`.
abbrev pub dispatch_result : TriggerDispatchFailureKind → RestartFailureKind × GenerationResultKind
dispatch_result dispatch_task_panic = (RestartFailureKind.panic, GenerationResultKind.panic)
dispatch_result k = (RestartFailureKind.recoverable_error, GenerationResultKind.recoverable_error)

module _ (T : Texts) where
  open T use {debug, dispatch_failure, panicked, unknown_panic}

  abbrev restarts :
      GenerationSignalFacts
      → ServiceStatus
      → RestartDecision
      → GenerationResultKind
      → GenerationExitRecord
  restarts signals status decision result = record {
    next_status = status;
    should_restart = true;
    should_shutdown_daemon = false;
    restart_decision = decision;
    result = result;
    signals = signals;
  }

  abbrev ends : GenerationSignalFacts → Bool → GenerationResultKind → GenerationExitRecord
  ends signals shuts_down result = record {
    next_status = ServiceStatus.terminated;
    should_restart = false;
    should_shutdown_daemon = shuts_down;
    restart_decision = RestartDecision.immediate;
    result = result;
    signals = signals;
  }

  -- The arms of the match on a generation that failed with an error.
  abbrev handle_error : GenerationSignalFacts → Error → GenerationExitRecord
  handle_error signals (fatal e) = ends signals false GenerationResultKind.fatal_service_error
  handle_error signals (provider_init e) =
      ends signals true GenerationResultKind.provider_init_error
  handle_error signals (isolated_startup e) =
      restarts signals (ServiceStatus.recovering (debug (isolated_startup e)))
        (with_backoff RestartFailureKind.isolated_startup_failure)
        GenerationResultKind.isolated_startup_failure
  handle_error signals (trigger_dispatch k name e) =
      restarts signals
        (ServiceStatus.recovering (dispatch_failure k name (trigger_dispatch k name e)))
        (with_backoff (dispatch_result k).0) (dispatch_result k).1
  handle_error signals (other e) =
      restarts signals (ServiceStatus.recovering (debug (other e)))
        (with_backoff RestartFailureKind.recoverable_error) GenerationResultKind.recoverable_error

  abbrev panic_text : Panic → List ℕ
  panic_text (text t) = t
  panic_text unknown = unknown_panic

  -- `handle_outcome`, but for the cancelling of the daemon's token on a provider's failure, which
  -- `on_outcome` makes out of `should_shutdown_daemon` again.
  unfoldable pub handle_outcome :
      GenerationSignalFacts → ServiceGenerationOutcome → GenerationExitRecord
  handle_outcome signals (ok (ok u)) =
      if signals.reload_requested
      then restarts signals ServiceStatus.restoring RestartDecision.immediate
          GenerationResultKind.reload
      else restarts signals ServiceStatus.initializing RestartDecision.immediate
          GenerationResultKind.normal_exit
  handle_outcome signals (ok (err e)) = handle_error signals e
  handle_outcome signals (err p) =
      restarts signals (ServiceStatus.recovering (panicked (panic_text p)))
        (with_backoff RestartFailureKind.panic) GenerationResultKind.panic
