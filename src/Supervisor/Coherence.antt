-- ===== src/Supervisor/Coherence.antt =====
-- What each state of the supervisor can count on, and what a shutdown request comes to.
use service_daemon_rs.External.Float.{F64}
use service_daemon_rs.Prelude.{◌≡◌, ◌≢◌, refl, true, some, List, [], ◌∷◌, is_some, arith}
use service_daemon_rs.RuntimeFacts.{ServiceStatus}
use service_daemon_rs.Supervisor.Exit.{
  ServiceGenerationOutcome, RestartDecision, with_backoff, RestartFailureKind, SupervisorState,
  starting, running, outcome, restart, terminated, Texts, handle_outcome,
}
use service_daemon_rs.Supervisor.{
  Moment, ServiceSupervisor, terminate, wait_for_restart, on_starting, on_running, on_outcome,
  on_restart, turn, run_loop,
}

module _ (F : F64) (T : Texts) where
  -- In `Running` the token, the diagnostics and the lane are there, in `Outcome` the first two; no
  -- restart is for an internal error; in `Terminated` the plane says so.
  abbrev pub IsCoherent : SupervisorState × ServiceSupervisor F T → Type 0
  IsCoherent (starting, s) = Unit {0}
  IsCoherent (running, s) =
      (is_some s.reload_token ≡ true)
      × (is_some s.generation_diagnostics ≡ true)
      × (is_some s.generation_body_lane ≡ true)
  IsCoherent (outcome r, s) =
      (is_some s.reload_token ≡ true) × (is_some s.generation_diagnostics ≡ true)
  IsCoherent (restart d, s) =
      (d ≢ with_backoff RestartFailureKind.internal_supervisor_error)
      × (is_some s.generation_diagnostics ≡ true)
  IsCoherent (terminated, s) = s.status ≡ some ServiceStatus.terminated

  starting-IsCoherent :
      (m : Moment F T) (s : ServiceSupervisor F T) → IsCoherent (on_starting F T m s)
  unfolding on_starting terminate
  starting-IsCoherent m s = ground arith

  running-IsCoherent :
      (m : Moment F T) (s : ServiceSupervisor F T)
      → IsCoherent (running, s)
      → IsCoherent (on_running F T m s)
  unfolding on_running
  running-IsCoherent m s c = ground arith

  outcome-IsCoherent :
      (m : Moment F T) (r : ServiceGenerationOutcome) (s : ServiceSupervisor F T)
      → IsCoherent (outcome r, s)
      → IsCoherent (on_outcome F T m r s)
  unfolding on_outcome handle_outcome terminate
  outcome-IsCoherent m r s c = ground arith

  restart-IsCoherent :
      (m : Moment F T) (d : RestartDecision) (s : ServiceSupervisor F T)
      → IsCoherent (on_restart F T m d s)
  unfolding on_restart wait_for_restart
  restart-IsCoherent m d s = ground arith

  pub turn-IsCoherent :
      (m : Moment F T) (st : SupervisorState × ServiceSupervisor F T)
      → IsCoherent st
      → IsCoherent (turn F T m st)
  unfolding turn
  turn-IsCoherent m (starting, s) c = starting-IsCoherent m s
  turn-IsCoherent m (running, s) c = running-IsCoherent m s c
  turn-IsCoherent m (outcome r, s) c = outcome-IsCoherent m r s c
  turn-IsCoherent m (restart d, s) c = restart-IsCoherent m d s
  turn-IsCoherent m (terminated, s) c = c

  pub kept-IsCoherent :
      (ms : List (Moment F T)) (st : SupervisorState × ServiceSupervisor F T)
      → IsCoherent st
      → IsCoherent (run_loop F T ms st)
  unfolding run_loop
  kept-IsCoherent [] st c = c
  kept-IsCoherent (m ∷ ms) st c = kept-IsCoherent ms (turn F T m st) (turn-IsCoherent m st c)

  -- From `Starting`, whatever happens, every state finds what it counts on, so that no generation ends
  -- in an internal error of the supervisor, and a supervisor that has ended left `Terminated` on the
  -- status plane.
  pub run_loop-IsCoherent :
      (ms : List (Moment F T)) (s : ServiceSupervisor F T)
      → IsCoherent (run_loop F T ms (starting, s))
  run_loop-IsCoherent ms s = kept-IsCoherent ms (starting, s) tt

  -- The supervisor has ended, with its service's status `Terminated`.
  abbrev pub HasEnded : SupervisorState × ServiceSupervisor F T → Type 0
  HasEnded (st, s) = (st ≡ terminated) × (s.status ≡ some ServiceStatus.terminated)

  ended_stays :
      (ms : List (Moment F T)) (st : SupervisorState × ServiceSupervisor F T)
      → HasEnded st
      → HasEnded (run_loop F T ms st)
  unfolding run_loop turn
  ended_stays [] st h = h
  ended_stays (m ∷ ms) (terminated, s) h = ended_stays ms (terminated, s) h
  ended_stays (m ∷ ms) (starting, s) h = ground (arith, h.0)
  ended_stays (m ∷ ms) (running, s) h = ground (arith, h.0)
  ended_stays (m ∷ ms) (outcome r, s) h = ground (arith, h.0)
  ended_stays (m ∷ ms) (restart d, s) h = ground (arith, h.0)

  two_turns :
      (m₁ m₂ : Moment F T) (st : SupervisorState × ServiceSupervisor F T)
      → m₁.is_cancelled ≡ true
      → m₂.is_cancelled ≡ true
      → IsCoherent st
      → HasEnded (turn F T m₂ (turn F T m₁ st))
  unfolding turn on_starting on_running on_outcome on_restart wait_for_restart terminate
  two_turns m₁ m₂ (starting, s) h₁ h₂ c = rw h₁ (refl, refl)
  two_turns m₁ m₂ (running, s) h₁ h₂ c = ground arith
  two_turns m₁ m₂ (outcome r, s) h₁ h₂ c = rw h₁ (refl, refl)
  two_turns m₁ m₂ (restart d, s) h₁ h₂ c = ground arith
  two_turns m₁ m₂ (terminated, s) h₁ h₂ c = (refl, c)

  -- Once the service's token is cancelled, two turns are enough for the supervisor to end, from every
  -- coherent state and whatever branches they take, and no later turn changes that.
  pub run_loop-HasEnded :
      (m₁ m₂ : Moment F T) (ms : List (Moment F T)) (st : SupervisorState × ServiceSupervisor F T)
      → m₁.is_cancelled ≡ true
      → m₂.is_cancelled ≡ true
      → IsCoherent st
      → HasEnded (run_loop F T (m₁ ∷ m₂ ∷ ms) st)
  unfolding run_loop
  run_loop-HasEnded m₁ m₂ ms st h₁ h₂ c =
      ended_stays ms (turn F T m₂ (turn F T m₁ st)) (two_turns m₁ m₂ st h₁ h₂ c)
