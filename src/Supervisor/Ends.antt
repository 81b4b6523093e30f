-- ===== src/Supervisor/Ends.antt =====
-- What ends a service for good, and what stops the daemon.
use service_daemon_rs.External.Float.{F64}
use service_daemon_rs.Prelude.{
  ◌≡◌, Bool, true, false, ◌||◌, not, List, [], ◌∷◌, ok, err, arith, All,
}
use service_daemon_rs.Supervisor.Exit.{
  fatal, provider_init, ServiceGenerationOutcome, with_backoff, SupervisorState, starting, running,
  outcome, restart, terminated, Texts, handle_outcome,
}
use service_daemon_rs.Supervisor.{
  Moment, ServiceSupervisor, terminate, wait_for_restart, on_starting, on_running, on_outcome,
  on_restart, turn, run_loop,
}
use service_daemon_rs.Supervisor.Coherence.{IsCoherent}

-- A result after which the service must not start again: `ServiceError::Fatal` or a provider's failure.
abbrev pub is_final : ServiceGenerationOutcome → Bool
is_final (ok (err (fatal e))) = true
is_final (ok (err (provider_init e))) = true
is_final r = false

abbrev pub is_provider_failure : ServiceGenerationOutcome → Bool
is_provider_failure (ok (err (provider_init e))) = true
is_provider_failure r = false

abbrev pub is_clean : ServiceGenerationOutcome → Bool
is_clean (ok (ok u)) = true
is_clean r = false

module _ (F : F64) (T : Texts) where
  -- What the supervisor does next: it ends, restarts at once, or restarts with backoff.
  abbrev pub is_terminated : SupervisorState → Bool
  is_terminated terminated = true
  is_terminated st = false

  abbrev pub is_backoff : SupervisorState → Bool
  is_backoff (restart (with_backoff k)) = true
  is_backoff st = false

  -- Without a shutdown, a generation's end stops the service exactly when it is final, cancels the
  -- daemon's token exactly when a provider failed, and leads to a backoff exactly when it is a
  -- failure that is not final.
  pub on_outcome_exact :
      (m : Moment F T) (r : ServiceGenerationOutcome) (s : ServiceSupervisor F T)
      → IsCoherent F T (outcome r, s)
      → m.is_cancelled ≡ false
      → let (st, s') = on_outcome F T m r s in
        (is_terminated st ≡ is_final r)
        × (is_backoff st ≡ not (is_final r || is_clean r))
        × (s'.is_daemon_cancelled ≡ is_provider_failure r || s.is_daemon_cancelled)
  unfolding on_outcome handle_outcome terminate
  on_outcome_exact m r s c h = ground arith

  -- The daemon's token is as it was, and a result that waits to be handled is no provider's failure.
  abbrev Spares : SupervisorState × ServiceSupervisor F T → Type 0
  Spares (outcome r, s) = (s.is_daemon_cancelled ≡ false) × (is_provider_failure r ≡ false)
  Spares (st, s) = s.is_daemon_cancelled ≡ false

  abbrev pub NoProviderFailure : Moment F T → Type 0
  NoProviderFailure m = is_provider_failure m.result ≡ false

  turn-Spares :
      (m : Moment F T) (st : SupervisorState × ServiceSupervisor F T)
      → Spares st
      → NoProviderFailure m
      → Spares (turn F T m st)
  unfolding turn on_starting on_running on_outcome on_restart wait_for_restart terminate
      handle_outcome
  turn-Spares m (starting, s) h n = ground arith
  turn-Spares m (running, s) h n = ground arith
  turn-Spares m (outcome r, s) h n = ground arith
  turn-Spares m (restart d, s) h n = ground arith
  turn-Spares m (terminated, s) h n = h

  run_loop-Spares :
      (ms : List (Moment F T)) (st : SupervisorState × ServiceSupervisor F T)
      → Spares st
      → All NoProviderFailure ms
      → Spares (run_loop F T ms st)
  unfolding run_loop
  run_loop-Spares [] st h n = h
  run_loop-Spares (m ∷ ms) st h n = run_loop-Spares ms (turn F T m st) (turn-Spares m st h n.0) n.1

  spared :
      (st : SupervisorState × ServiceSupervisor F T) → Spares st → st.1.is_daemon_cancelled ≡ false
  spared (starting, s) h = h
  spared (running, s) h = h
  spared (outcome r, s) h = h.0
  spared (restart d, s) h = h
  spared (terminated, s) h = h

  -- From `Starting`, with a daemon whose token is not cancelled, a supervisor whose generations end in
  -- no failure of a provider never cancels that token.
  run_loop_spares_daemon :
      (ms : List (Moment F T)) (s : ServiceSupervisor F T)
      → s.is_daemon_cancelled ≡ false
      → All NoProviderFailure ms
      → (run_loop F T ms (starting, s)).1.is_daemon_cancelled ≡ false
  run_loop_spares_daemon ms s h n =
      spared (run_loop F T ms (starting, s)) (run_loop-Spares ms (starting, s) h n)
