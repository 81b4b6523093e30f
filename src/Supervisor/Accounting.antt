-- ===== src/Supervisor/Accounting.antt =====
-- Every generation is accounted for, once.
use service_daemon_rs.External.Float.{F64}
use service_daemon_rs.Prelude.{ℕ, ◌≡◌, ◌≤◌, refl, Bool, List, [], ◌∷◌, arith, ◌+◌, length, ◌<◌, ◌^◌}
use service_daemon_rs.Policy.Restart.{RestartPolicy}
use service_daemon_rs.RuntimeFacts.{
  record_status_facts, record_service_started, record_service_restart,
}
use service_daemon_rs.Supervisor.Coherence.{IsCoherent, turn-IsCoherent}
use service_daemon_rs.Supervisor.Exit.{
  ServiceGenerationOutcome, RestartDecision, SupervisorState, starting, running, outcome, restart,
  terminated, Texts, handle_outcome,
}
use service_daemon_rs.Supervisor.{
  Moment, ServiceSupervisor, new, terminate, wait_for_restart, on_starting, on_running, on_outcome,
  on_restart, turn, run_loop,
}
use service_daemon_rs.Diagnostics.{
  ServiceScheduling, GenerationExitKind, LifecycleStats, record_exit, record_restart,
  record_terminated, record_reload_requested,
}

-- The generations whose end the counters of a service know.
abbrev pub exits : LifecycleStats → ℕ
exits s =
    s.normal_exit + s.recoverable_error + s.panic + s.fatal_service_error + s.provider_init_error
    + s.reload_exit + s.shutdown + s.isolated_startup_failure

module _ (F : F64) (T : Texts) where
  open F use {Num}

  -- The generations that run or wait for their end to be handled, and the ends that wait for a restart.
  abbrev pub in_progress : SupervisorState → ℕ
  in_progress running = 1
  in_progress (outcome r) = 1
  in_progress st = 0

  abbrev pub waiting_restarts : SupervisorState → ℕ
  waiting_restarts (restart d) = 1
  waiting_restarts st = 0

  -- The counters agree: each generation is in progress or has one exit, each restart follows an exit,
  -- and the facts and the diagnostics count the same restarts and the same generations.
  pub record IsAccounted (st : SupervisorState × ServiceSupervisor F T) : Type 0 where
    pub generations : st.1.generation ≡ exits st.1.service_stats + in_progress st.0
    pub restarts : st.1.service_stats.restart + waiting_restarts st.0 ≤ exits st.1.service_stats
    pub same_restarts : st.1.facts.restart_count ≡ st.1.service_stats.restart
    pub same_generation : st.1.facts.generation ≡ st.1.generation

  -- A turn starts at most one generation.
  turn_steps :
      (m : Moment F T) (st : SupervisorState × ServiceSupervisor F T)
      → (turn F T m st).1.generation ≤ st.1.generation + 1
  unfolding turn on_starting on_running on_outcome on_restart wait_for_restart terminate
      handle_outcome
  turn_steps m (starting, s) = ground arith
  turn_steps m (running, s) = ground arith
  turn_steps m (outcome r, s) = ground arith
  turn_steps m (restart d, s) = ground arith
  turn_steps m (terminated, s) = omega arith

  starting-IsAccounted :
      (m : Moment F T) (s : ServiceSupervisor F T)
      → IsAccounted (starting, s)
      → s.generation + 1 < 2 ^ 64
      → IsAccounted (on_starting F T m s)
  unfolding on_starting terminate record_service_started record_status_facts record_terminated
  starting-IsAccounted m s h l = record {
    generations = ground (arith, h.generations);
    restarts = ground (arith, h.restarts);
    same_restarts = ground (arith, h.same_restarts);
    same_generation = ground (arith, h.same_generation);
  }

  running-IsAccounted :
      (m : Moment F T) (s : ServiceSupervisor F T)
      → IsAccounted (running, s)
      → IsAccounted (on_running F T m s)
  unfolding on_running record_reload_requested
  running-IsAccounted m s h = record {
    generations = ground (arith, h.generations);
    restarts = ground (arith, h.restarts);
    same_restarts = ground (arith, h.same_restarts);
    same_generation = ground (arith, h.same_generation);
  }

  exits-record_exit :
      (k : GenerationExitKind) (s : LifecycleStats)
      → exits s + 1 < 2 ^ 64
      → exits (record_exit k s) ≡ exits s + 1
  unfolding record_exit
  exits-record_exit k s l = ground arith

  outcome-IsAccounted :
      (m : Moment F T) (r : ServiceGenerationOutcome) (s : ServiceSupervisor F T)
      → IsAccounted (outcome r, s)
      → IsCoherent F T (outcome r, s)
      → s.generation < 2 ^ 64
      → IsAccounted (on_outcome F T m r s)
  unfolding on_outcome terminate handle_outcome record_status_facts record_terminated record_exit
  outcome-IsAccounted m r s h c l = record {
    generations = ground (arith, h.generations);
    restarts = ground (arith, h.restarts, h.generations);
    same_restarts = ground (arith, h.same_restarts);
    same_generation = ground (arith, h.same_generation);
  }

  restart-IsAccounted :
      (m : Moment F T) (d : RestartDecision) (s : ServiceSupervisor F T)
      → IsAccounted (restart d, s)
      → IsCoherent F T (restart d, s)
      → s.generation < 2 ^ 64
      → IsAccounted (on_restart F T m d s)
  unfolding on_restart wait_for_restart record_status_facts record_service_restart record_restart
  restart-IsAccounted m d s h c l = record {
    generations = ground (arith, h.generations);
    restarts = ground (arith, h.restarts, h.generations);
    same_restarts = ground (arith, h.same_restarts, h.restarts, h.generations);
    same_generation = ground (arith, h.same_generation);
  }

  turn-IsAccounted :
      (m : Moment F T) (st : SupervisorState × ServiceSupervisor F T)
      → IsAccounted st
      → IsCoherent F T st
      → st.1.generation + 1 < 2 ^ 64
      → IsAccounted (turn F T m st)
  unfolding turn
  turn-IsAccounted m (starting, s) h c l = starting-IsAccounted m s h l
  turn-IsAccounted m (running, s) h c l = running-IsAccounted m s h
  turn-IsAccounted m (outcome r, s) h c l = outcome-IsAccounted m r s h c (omega arith)
  turn-IsAccounted m (restart d, s) h c l = restart-IsAccounted m d s h c (omega arith)
  turn-IsAccounted m (terminated, s) h c l = h

  kept-IsAccounted :
      (ms : List (Moment F T)) (st : SupervisorState × ServiceSupervisor F T)
      → IsAccounted st
      → IsCoherent F T st
      → st.1.generation + length ms < 2 ^ 64
      → IsAccounted (run_loop F T ms st)
  unfolding run_loop
  kept-IsAccounted [] st h c l = h
  kept-IsAccounted (m ∷ ms) st h c l =
      kept-IsAccounted ms (turn F T m st) (turn-IsAccounted m st h c (omega arith))
        (turn-IsCoherent F T m st c) (omega (arith, turn_steps m st))

  -- Over any run of a new supervisor of fewer than 2 ^ 64 turns, every generation that was started is in progress or is
  -- counted by exactly one exit, no restart is counted without an exit before it, and the facts and
  -- the diagnostics agree on the numbers of restarts and generations.
  pub run_loop-IsAccounted :
      (p : RestartPolicy Num) (c : ServiceScheduling) (hp : Bool) (ms : List (Moment F T))
      → length ms < 2 ^ 64
      → IsAccounted (run_loop F T ms (starting, new F T p c hp))
  unfolding new
  run_loop-IsAccounted p c hp ms l =
      kept-IsAccounted ms (starting, new F T p c hp)
        (record {
          generations = refl;
          restarts = omega arith;
          same_restarts = refl;
          same_generation = refl;
        })
        tt (omega arith)
