-- ===== src/Supervisor.antt =====
-- service-daemon/src/core/service_daemon/runner/supervisor.rs: `ServiceSupervisor` and its state machine.
-- A step is one handler call. What it reads from outside (clocks, the cancelled token, the branch of a
-- `select!`, the generation's result) is a `Moment`. Left out: what only wakes tasks
-- (`status_changed.notify_waiters()`, the entry of `reload_signals`), the log lines, and the
-- diagnostics of the lane and the service's current generation there.
pub mod Exit
pub mod Coherence
pub mod Ends
pub mod Delays
pub mod Accounting
use service_daemon_rs.External.Float.{F64}
use service_daemon_rs.Prelude.{
  ℕ, ◌-◌, Bool, true, false, ◌||◌, Option, none, some, List, [], ◌∷◌, ok, err, if◌then◌else◌,
  map_or,
}
use service_daemon_rs.Prelude.Words.{saturating_add, u64_max}
use service_daemon_rs.Policy.Restart.{RestartPolicy}
use service_daemon_rs.Policy.Storm.{RestartStormGuard}
use service_daemon_rs.Policy.Storm
use service_daemon_rs.Policy.Backoff.{BackoffController}
use service_daemon_rs.Policy.Backoff
use service_daemon_rs.Diagnostics.{
  ServiceScheduling, GenerationExitKind, LifecycleStats, no_stats, record_exit, record_restart,
  record_terminated, record_reload_requested,
}
use service_daemon_rs.RuntimeFacts.{
  ServiceStatus, ServiceRuntimeState, no_facts, record_status_facts, record_service_started,
  record_service_restart,
}
use Exit.{
  Error, other, ServiceGenerationOutcome, RestartDecision, with_backoff, RestartFailureKind,
  diagnostics_kind, diagnostics_exit_kind, GenerationExitRecord, SupervisorState, starting, running,
  outcome, restart, terminated, Texts, handle_outcome,
}

pub data BodyExecutionLane : Type 0 where
  standard high_priority isolated : BodyExecutionLane

-- `BodyExecutionLanes::resolve`: whether the daemon has a runtime of high priority.
unfoldable pub resolve : Bool → ServiceScheduling → Option BodyExecutionLane
resolve has_high_priority ServiceScheduling.standard = some BodyExecutionLane.standard
resolve has_high_priority ServiceScheduling.high_priority =
    if has_high_priority then some BodyExecutionLane.high_priority else none
resolve has_high_priority ServiceScheduling.isolated = some BodyExecutionLane.isolated

-- The branch of the `select!` in `on_running`.
pub data RunningBranch : Type 0 where
  finished dependency_changed reload_signalled : RunningBranch

-- The branch of the `select!` in `wait_for_restart`.
pub data WaitingBranch : Type 0 where
  slept reload_notified cancelled : WaitingBranch

-- `watcher` tells what a provider's watch set holds; an empty one is none.
abbrev pub watched : List ℕ → Option (List ℕ)
watched [] = none
watched (d ∷ ds) = some (d ∷ ds)

-- The status that a generation starts with, from the one on the plane.
unfoldable pub determine_start_status : Option ServiceStatus → ServiceStatus
determine_start_status none = ServiceStatus.initializing
determine_start_status (some ServiceStatus.initializing) = ServiceStatus.initializing
determine_start_status (some (ServiceStatus.recovering e)) = ServiceStatus.recovering e
determine_start_status (some s) = ServiceStatus.restoring

module _ (F : F64) (T : Texts) where
  open F use {Num}
  open T use {no_reload_token, no_diagnostics, no_body_lane}

  -- `is_cancelled` is what a handler first reads of the service's token, `shutdown_requested` what
  -- `handle_outcome` reads of it later.
  pub record Moment : Type 0 where
    pub now : ℕ
    pub wall : ℕ
    pub is_cancelled : Bool
    pub shutdown_requested : Bool
    pub watch_set : List ℕ
    pub branch : RunningBranch
    pub result : ServiceGenerationOutcome
    pub waiting : WaitingBranch
    pub draw : Num → Num → Num

  -- The supervisor, with what it writes of the daemon's resources: the service's status on the plane,
  -- its facts, its counters and whether the daemon's token is cancelled.
  pub record ServiceSupervisor : Type 0 where
    pub scheduling : ServiceScheduling
    pub has_high_priority : Bool
    pub backoff : BackoffController F
    pub restart_storm : RestartStormGuard
    pub generation : ℕ
    pub generation_start : Option ℕ
    pub generation_body_lane : Option BodyExecutionLane
    pub generation_diagnostics : Option LifecycleStats
    pub dependency_watch_set : Option (List ℕ)
    pub reload_token : Option Bool
    pub status : Option ServiceStatus
    pub facts : ServiceRuntimeState
    pub service_stats : LifecycleStats
    pub is_daemon_cancelled : Bool

  -- `ServiceSupervisor::new`, in a daemon that has registered the service.
  unfoldable pub new : RestartPolicy Num → ServiceScheduling → Bool → ServiceSupervisor
  new policy scheduling has_high_priority = record {
    scheduling = scheduling;
    has_high_priority = has_high_priority;
    backoff = Backoff.new F policy;
    restart_storm = Storm.new Storm.default_config;
    generation = 0;
    generation_start = none;
    generation_body_lane = none;
    generation_diagnostics = none;
    dependency_watch_set = none;
    reload_token = none;
    status = none;
    facts = no_facts;
    service_stats = no_stats;
    is_daemon_cancelled = false;
  }

  -- `self.generation_diagnostics.as_ref()`: a record in the generation's counters and the service's.
  abbrev pub diagnose : (LifecycleStats → LifecycleStats) → ServiceSupervisor → ServiceSupervisor
  diagnose f s = map_or s.generation_diagnostics s λ stats. record s {
    generation_diagnostics = some (f stats);
    service_stats = f s.service_stats;
  }

  -- The write to the status plane with the `record_service_status` that follows it.
  abbrev pub set_status : ℕ → ServiceStatus → ServiceSupervisor → ServiceSupervisor
  set_status wall status s = record s {
    status = some status;
    facts = record_status_facts wall status s.facts;
  }

  -- `terminate`.
  unfoldable pub terminate : Moment → ServiceSupervisor → SupervisorState × ServiceSupervisor
  terminate m s =
      (terminated, set_status m.wall ServiceStatus.terminated (diagnose record_terminated s))

  -- `wait_for_restart`, and whether to go on.
  unfoldable pub wait_for_restart :
      Moment → RestartDecision → ServiceSupervisor → Bool × ServiceSupervisor
  wait_for_restart m RestartDecision.immediate s =
      let t = diagnose (record_restart (diagnostics_kind RestartDecision.immediate) 0 0 false) s in
      (
        true,
        record t {
          facts = record_service_restart none t.facts;
          backoff = Backoff.record_success F t.backoff;
          restart_storm = Storm.reset t.restart_storm;
        },
      )
  wait_for_restart m (with_backoff k) s =
      let (storm, d) = Storm.record_failure s.restart_storm m.now s.backoff.current_delay in
      let t =
        diagnose
          (record_restart (diagnostics_kind (with_backoff k)) d.policy_delay d.effective_delay
            d.rate_limited)
          (record s {
            restart_storm = storm;
            facts = record_service_restart (some d.effective_delay) s.facts;
          }) in
      elim m.waiting [
        | slept ↦ (true, record t { backoff = Backoff.record_failure F m.draw t.backoff })
        | reload_notified ↦ (
          true,
          record t {
            backoff = Backoff.record_success F t.backoff;
            restart_storm = Storm.reset t.restart_storm;
          },
        )
        | cancelled ↦ (false, set_status m.wall ServiceStatus.terminated t)
      ]

  -- `on_starting`. Outside of tests the resolver of the lane answers what the service declared.
  unfoldable pub on_starting : Moment → ServiceSupervisor → SupervisorState × ServiceSupervisor
  on_starting m s =
      let start_status = determine_start_status s.status in
      let generation = saturating_add u64_max s.generation 1 in
      let lane = resolve s.has_high_priority s.scheduling in
      if m.is_cancelled then terminate m s else (
        map_or lane (outcome (ok (err (other no_body_lane)))) (λ l. running),
        record s {
          generation = generation;
          generation_start = some m.now;
          generation_body_lane = lane;
          generation_diagnostics = some no_stats;
          dependency_watch_set = watched m.watch_set;
          reload_token = some false;
          status = some start_status;
          facts = record_service_started m.wall generation start_status s.facts;
        },
      )

  -- What the generation ends in, once the guards of `on_running` have passed.
  abbrev pub run_generation : Moment → ServiceSupervisor → ServiceSupervisor
  run_generation m s =
      let t = record s { dependency_watch_set = none } in
      let reloading = record (diagnose record_reload_requested t) { reload_token = some true } in
      elim m.branch [
        | finished ↦ t
        | dependency_changed ↦ map_or s.dependency_watch_set t λ w. reloading
        | reload_signalled ↦ reloading
      ]

  -- `on_running`.
  unfoldable pub on_running : Moment → ServiceSupervisor → SupervisorState × ServiceSupervisor
  on_running m s =
      map_or s.reload_token (outcome (ok (err (other no_reload_token))), s)
        λ token.
          map_or s.generation_diagnostics (outcome (ok (err (other no_diagnostics))), s)
            λ stats.
              map_or s.generation_body_lane (outcome (ok (err (other no_body_lane))), s)
                λ lane. (outcome m.result, run_generation m s)

  -- The resets of `on_outcome` before a restart with backoff.
  abbrev pub maybe_reset : Moment → RestartDecision → ServiceSupervisor → ServiceSupervisor
  maybe_reset m RestartDecision.immediate s = s
  maybe_reset m (with_backoff k) s = map_or s.generation_start s λ start.
      let elapsed = m.now - start in
      let backoff = Backoff.maybe_reset F elapsed s.backoff in
      record s {
        backoff = backoff;
        restart_storm = Storm.maybe_reset s.restart_storm elapsed backoff.policy.reset_after;
      }

  -- `on_outcome` from the exit record on.
  abbrev pub settle :
      Moment → GenerationExitRecord → ServiceSupervisor → SupervisorState × ServiceSupervisor
  settle m x s =
      let t =
        diagnose (record_exit (diagnostics_exit_kind x.result))
          (record s { is_daemon_cancelled = x.should_shutdown_daemon || s.is_daemon_cancelled }) in
      if x.should_restart
      then (
        restart x.restart_decision,
        maybe_reset m x.restart_decision (set_status m.wall x.next_status t),
      )
      else terminate m (record t { facts = record_status_facts m.wall x.next_status t.facts })

  -- `on_outcome`.
  unfoldable pub on_outcome :
      Moment → ServiceGenerationOutcome → ServiceSupervisor → SupervisorState × ServiceSupervisor
  on_outcome m result s =
      if m.is_cancelled
      then terminate m (diagnose (record_exit GenerationExitKind.shutdown) s)
      else map_or s.reload_token
          (
            restart (with_backoff RestartFailureKind.internal_supervisor_error),
            set_status m.wall (ServiceStatus.recovering no_reload_token) s,
          )
          λ reload.
            settle m
              (handle_outcome T
                (record { reload_requested = reload; shutdown_requested = m.shutdown_requested })
                result)
              s

  -- `on_restart`.
  unfoldable pub on_restart :
      Moment → RestartDecision → ServiceSupervisor → SupervisorState × ServiceSupervisor
  on_restart m decision s =
      let (proceeds, s') = wait_for_restart m decision s in
      (if proceeds then starting else terminated, s')

  -- One turn of `run_loop`; from `Terminated` there is none.
  unfoldable pub turn :
      Moment → SupervisorState × ServiceSupervisor → SupervisorState × ServiceSupervisor
  turn m (starting, s) = on_starting m s
  turn m (running, s) = on_running m s
  turn m (outcome result, s) = on_outcome m result s
  turn m (restart decision, s) = on_restart m decision s
  turn m (terminated, s) = (terminated, s)

  -- `run_loop` over the moments of its turns.
  unfoldable pub run_loop :
      List Moment → SupervisorState × ServiceSupervisor → SupervisorState × ServiceSupervisor
  run_loop [] st = st
  run_loop (m ∷ ms) st = run_loop ms (turn m st)
