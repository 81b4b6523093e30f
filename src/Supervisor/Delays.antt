-- ===== src/Supervisor/Delays.antt =====
-- How long the supervisor waits before a restart.
use service_daemon_rs.External.Float.{F64}
use service_daemon_rs.Prelude.{
  ℕ, ◌≡◌, ◌≢◌, ◌≤◌, max, refl, ap, Bool, true, Option, none, some, List, [], ◌∷◌, arith,
}
use service_daemon_rs.Policy.Restart.{RestartPolicy, next_delay}
use service_daemon_rs.RuntimeFacts.{
  ServiceStatus, ServiceRuntimeState, record_status_facts, record_service_started,
  record_service_restart,
}
use service_daemon_rs.Diagnostics.{ServiceScheduling}
use service_daemon_rs.Supervisor.Exit.{
  ServiceGenerationOutcome, RestartDecision, with_backoff, RestartFailureKind, SupervisorState,
  starting, running, outcome, restart, terminated, Texts, handle_outcome,
}
use service_daemon_rs.Supervisor.{
  Moment, ServiceSupervisor, new, terminate, wait_for_restart, on_starting, on_running, on_outcome,
  on_restart, turn, run_loop, slept, reload_notified, cancelled,
}
use service_daemon_rs.Policy.Backoff
use service_daemon_rs.Policy.Storm
use service_daemon_rs.Policy.Storm.{default_config}
use service_daemon_rs.Policy.Restart.Delay.{next_delay-le-max}

module _ (F : F64) (T : Texts) where
  open F use {Num}

  -- The longest wait under a policy: its delays, and the delay of a restart storm.
  abbrev pub longest_delay : RestartPolicy Num → ℕ
  longest_delay p = max (max p.initial_delay p.max_delay) default_config.suppression_delay

  abbrev pub BackoffWithin : ℕ → Option ℕ → Type 0
  BackoffWithin bound none = Unit {0}
  BackoffWithin bound (some d) = d ≤ bound

  record IsPaced (p : RestartPolicy Num) (s : ServiceSupervisor F T) : Type 0 where
    pub same_policy : s.backoff.policy ≡ p
    pub within : s.backoff.current_delay ≤ max p.initial_delay p.max_delay
    pub same_config : s.restart_storm.config.suppression_delay ≡ default_config.suppression_delay
    pub backoff_within : BackoffWithin (longest_delay p) s.facts.current_backoff

  status_within :
      (bound wall : ℕ) (status : ServiceStatus) (f : ServiceRuntimeState)
      → BackoffWithin bound f.current_backoff
      → BackoffWithin bound (record_status_facts wall status f).current_backoff
  unfolding record_status_facts
  status_within bound wall status f h = ground arith

  initial_within :
      (p q : RestartPolicy Num) → q ≡ p → q.initial_delay ≤ max p.initial_delay p.max_delay
  initial_within p q e = omega (arith, ap (λ (r : RestartPolicy Num). r.initial_delay) e)

  next_within :
      (p q : RestartPolicy Num) (draw : Num → Num → Num) (current : ℕ)
      → q ≡ p
      → next_delay F draw q current ≤ max p.initial_delay p.max_delay
  next_within p q draw current e =
      omega
        (arith, next_delay-le-max F draw q current, ap (λ (r : RestartPolicy Num). r.max_delay) e)

  starting-IsPaced :
      (p : RestartPolicy Num) (m : Moment F T) (s : ServiceSupervisor F T)
      → IsPaced p s
      → IsPaced p (on_starting F T m s).1
  unfolding on_starting terminate record_service_started record_status_facts
  starting-IsPaced p m s h = record {
    same_policy = ground (arith, h.same_policy);
    within = ground (arith, h.within);
    same_config = ground (arith, h.same_config);
    backoff_within = ground (arith, h.backoff_within);
  }

  running-IsPaced :
      (p : RestartPolicy Num) (m : Moment F T) (s : ServiceSupervisor F T)
      → IsPaced p s
      → IsPaced p (on_running F T m s).1
  unfolding on_running
  running-IsPaced p m s h = record {
    same_policy = ground (arith, h.same_policy);
    within = ground (arith, h.within);
    same_config = ground (arith, h.same_config);
    backoff_within = ground (arith, h.backoff_within);
  }

  outcome-IsPaced :
      (p : RestartPolicy Num) (m : Moment F T) (r : ServiceGenerationOutcome)
      (s : ServiceSupervisor F T)
      → IsPaced p s
      → IsPaced p (on_outcome F T m r s).1
  unfolding on_outcome terminate handle_outcome record_status_facts Backoff.maybe_reset
      Backoff.record_success Storm.maybe_reset Storm.reset
  outcome-IsPaced p m r s h = record {
    same_policy = ground (arith, h.same_policy);
    within = ground (arith, h.within, initial_within p s.backoff.policy h.same_policy);
    same_config = ground (arith, h.same_config);
    backoff_within = ground (arith, h.backoff_within);
  }

  restart-IsPaced :
      (p : RestartPolicy Num) (m : Moment F T) (d : RestartDecision) (s : ServiceSupervisor F T)
      → IsPaced p s
      → IsPaced p (on_restart F T m d s).1
  unfolding on_restart wait_for_restart record_status_facts record_service_restart
      Backoff.record_failure Backoff.record_success Storm.record_failure Storm.reset
  restart-IsPaced p m d s h = record {
    same_policy = ground (arith, h.same_policy);
    within = ground (
      arith,
      h.within,
      initial_within p s.backoff.policy h.same_policy,
      next_within p s.backoff.policy m.draw s.backoff.current_delay h.same_policy,
    );
    same_config = ground (arith, h.same_config);
    backoff_within = ground (arith, h.within, h.same_config, h.backoff_within);
  }

  turn-IsPaced :
      (p : RestartPolicy Num) (m : Moment F T) (st : SupervisorState × ServiceSupervisor F T)
      → IsPaced p st.1
      → IsPaced p (turn F T m st).1
  unfolding turn
  turn-IsPaced p m (starting, s) h = starting-IsPaced p m s h
  turn-IsPaced p m (running, s) h = running-IsPaced p m s h
  turn-IsPaced p m (outcome r, s) h = outcome-IsPaced p m r s h
  turn-IsPaced p m (restart d, s) h = restart-IsPaced p m d s h
  turn-IsPaced p m (terminated, s) h = h

  run_loop-IsPaced :
      (p : RestartPolicy Num) (ms : List (Moment F T))
      (st : SupervisorState × ServiceSupervisor F T)
      → IsPaced p st.1
      → IsPaced p (run_loop F T ms st).1
  unfolding run_loop
  run_loop-IsPaced p [] st h = h
  run_loop-IsPaced p (m ∷ ms) st h = run_loop-IsPaced p ms (turn F T m st) (turn-IsPaced p m st h)

  -- Whatever happens to a service from a new supervisor on, the backoff in its facts is never longer than the longest of its
  -- policy's delays and the delay of a restart storm.
  pub run_loop_backoff_bound :
      (p : RestartPolicy Num) (c : ServiceScheduling) (hp : Bool) (ms : List (Moment F T))
      → BackoffWithin
          (longest_delay p)
          (run_loop F T ms (starting, new F T p c hp)).1.facts.current_backoff
  unfolding new Backoff.new Storm.new
  run_loop_backoff_bound p c hp ms =
      (run_loop-IsPaced p ms (starting, new F T p c hp)
        (record {
          same_policy = refl;
          within = omega arith;
          same_config = refl;
          backoff_within = tt;
        })).backoff_within

  -- A restart after a failure whose wait no shutdown cuts short goes on, and the wait that it records
  -- in the facts is the storm guard's effective delay, which is at least the policy's current delay.
  -- A reload makes the next delay the initial one; a wait that was slept out makes one of at most
  -- the policy's maximum.
  pub wait_for_restart_exact :
      (m : Moment F T) (k : RestartFailureKind) (s : ServiceSupervisor F T)
      → m.waiting ≢ cancelled
      → let (proceeds, s') = wait_for_restart F T m (with_backoff k) s in
        let d = (Storm.record_failure s.restart_storm m.now s.backoff.current_delay).1 in
        (proceeds ≡ true)
        × (s'.facts.current_backoff ≡ some d.effective_delay)
        × (s.backoff.current_delay ≤ d.effective_delay)
        × (m.waiting ≡ reload_notified → s'.backoff.current_delay ≡ s.backoff.policy.initial_delay)
        × (m.waiting ≡ slept → s'.backoff.current_delay ≤ s.backoff.policy.max_delay)
  unfolding wait_for_restart record_service_restart Backoff.record_failure Backoff.record_success
      Storm.record_failure
  wait_for_restart_exact m k s h =
      ground (arith, next_delay-le-max F m.draw s.backoff.policy s.backoff.current_delay)
