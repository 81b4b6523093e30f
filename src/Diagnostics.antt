-- ===== src/Diagnostics.antt =====
-- service-daemon/src/core/diagnostics.rs: the lanes, the kinds of exits and restarts, and the counters
-- of a generation's lifecycle (`LifecycleStats`). A counter is an `AtomicU64`, which wraps around.
pub mod Failures
pub mod Generations
use service_daemon_rs.Prelude.{ℕ, ◌/◌, min, Bool, true, false, Option, none, some, if◌then◌else◌}
use service_daemon_rs.Prelude.Words.{u64_max, wrapping_add64}

pub data ServiceScheduling : Type 0 where
  standard high_priority isolated : ServiceScheduling

pub data RuntimeLane : Type 0 where
  control standard high_priority isolated : RuntimeLane

-- `From<ServiceScheduling> for RuntimeLane`.
unfoldable pub lane_from : ServiceScheduling → RuntimeLane
lane_from ServiceScheduling.standard = RuntimeLane.standard
lane_from ServiceScheduling.high_priority = RuntimeLane.high_priority
lane_from ServiceScheduling.isolated = RuntimeLane.isolated

pub data GenerationExitKind : Type 0 where
  normal_exit recoverable_error panic fatal_service_error provider_init_error reload shutdown
        isolated_startup_failure :
      GenerationExitKind

pub data RestartDecisionKind : Type 0 where
  immediate backoff_recoverable_error backoff_panic backoff_isolated_startup_failure
        backoff_internal_supervisor_error :
      RestartDecisionKind

-- `RestartDecisionKind::uses_backoff`.
abbrev pub uses_backoff : RestartDecisionKind → Bool
uses_backoff RestartDecisionKind.immediate = false
uses_backoff k = true

pub record LifecycleStats : Type 0 where
  pub reload_requested : ℕ
  pub reload_exit : ℕ
  pub restart : ℕ
  pub backoff_restart : ℕ
  pub rate_limited_restart : ℕ
  pub terminated : ℕ
  pub normal_exit : ℕ
  pub recoverable_error : ℕ
  pub panic : ℕ
  pub fatal_service_error : ℕ
  pub provider_init_error : ℕ
  pub shutdown : ℕ
  pub isolated_startup_failure : ℕ
  pub last_policy_delay_ms : ℕ
  pub last_effective_restart_delay_ms : ℕ
  pub last_exit_kind : Option GenerationExitKind
  pub last_restart_decision : Option RestartDecisionKind

-- `Default for LifecycleStats`.
abbrev pub no_stats : LifecycleStats
no_stats = record {
  reload_requested = 0;
  reload_exit = 0;
  restart = 0;
  backoff_restart = 0;
  rate_limited_restart = 0;
  terminated = 0;
  normal_exit = 0;
  recoverable_error = 0;
  panic = 0;
  fatal_service_error = 0;
  provider_init_error = 0;
  shutdown = 0;
  isolated_startup_failure = 0;
  last_policy_delay_ms = 0;
  last_effective_restart_delay_ms = 0;
  last_exit_kind = none;
  last_restart_decision = none;
}

-- `fetch_add(1)`.
abbrev pub bump : ℕ → ℕ
bump n = wrapping_add64 n 1

-- `duration_millis`, on nanoseconds.
abbrev pub duration_millis : ℕ → ℕ
duration_millis duration = min (duration / 1_000_000) u64_max

unfoldable pub record_reload_requested : LifecycleStats → LifecycleStats
record_reload_requested s = record s { reload_requested = bump s.reload_requested }

unfoldable pub record_restart : RestartDecisionKind → ℕ → ℕ → Bool → LifecycleStats → LifecycleStats
record_restart decision policy_delay effective_delay rate_limited s = record s {
  restart = bump s.restart;
  backoff_restart = if uses_backoff decision then bump s.backoff_restart else s.backoff_restart;
  rate_limited_restart =
      if rate_limited then bump s.rate_limited_restart else s.rate_limited_restart;
  last_policy_delay_ms = duration_millis policy_delay;
  last_effective_restart_delay_ms = duration_millis effective_delay;
  last_restart_decision = some decision;
}

unfoldable pub record_terminated : LifecycleStats → LifecycleStats
record_terminated s = record s { terminated = bump s.terminated }

-- The `match` of `record_exit`, which picks the counter.
abbrev pub count_exit : GenerationExitKind → LifecycleStats → LifecycleStats
count_exit GenerationExitKind.normal_exit s = record s { normal_exit = bump s.normal_exit }
count_exit GenerationExitKind.recoverable_error s = record s {
  recoverable_error = bump s.recoverable_error;
}
count_exit GenerationExitKind.panic s = record s { panic = bump s.panic }
count_exit GenerationExitKind.fatal_service_error s = record s {
  fatal_service_error = bump s.fatal_service_error;
}
count_exit GenerationExitKind.provider_init_error s = record s {
  provider_init_error = bump s.provider_init_error;
}
count_exit GenerationExitKind.reload s = record s { reload_exit = bump s.reload_exit }
count_exit GenerationExitKind.shutdown s = record s { shutdown = bump s.shutdown }
count_exit GenerationExitKind.isolated_startup_failure s = record s {
  isolated_startup_failure = bump s.isolated_startup_failure;
}

unfoldable pub record_exit : GenerationExitKind → LifecycleStats → LifecycleStats
record_exit kind s = record (count_exit kind s) { last_exit_kind = some kind }
