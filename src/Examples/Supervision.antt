-- ===== src/Examples/Supervision.antt =====
-- The theorems on the supervisor at concrete inputs.
use service_daemon_rs.Examples.Instances.{fixed}
use service_daemon_rs.Prelude.{
  ℕ, ◌≡◌, ◌≤◌, refl, Bool, true, false, none, some, List, [], ◌∷◌, ok, err, arith,
}
use service_daemon_rs.Policy.Restart.{RestartPolicy}
use service_daemon_rs.Policy.Storm
use service_daemon_rs.Diagnostics.{ServiceScheduling, no_stats}
use service_daemon_rs.Supervisor.Exit.{
  other, provider_init, ServiceGenerationOutcome, starting, restart, RestartDecision, with_backoff,
  RestartFailureKind, Texts,
}
use service_daemon_rs.Supervisor.{
  Moment, finished, WaitingBranch, slept, reload_notified, cancelled, ServiceSupervisor, new,
  on_outcome, wait_for_restart, run_loop,
}
use service_daemon_rs.Supervisor.Coherence.{
  IsCoherent, HasEnded, run_loop-IsCoherent, run_loop-HasEnded,
}
use service_daemon_rs.Supervisor.Ends.{is_terminated, is_backoff, on_outcome_exact}
use service_daemon_rs.Supervisor.Delays.{
  BackoffWithin, longest_delay, run_loop_backoff_bound, wait_for_restart_exact,
}
use service_daemon_rs.Supervisor.Accounting.{IsAccounted, run_loop-IsAccounted}

abbrev texts : Texts
texts = record {
  debug = λ e. 0x65 ∷ [];
  dispatch_failure = λ k name e. name;
  panicked = λ t. t;
  unknown_panic = 0x3f ∷ [];
  no_reload_token = 0x72 ∷ [];
  no_diagnostics = 0x64 ∷ [];
  no_body_lane = 0x6c ∷ [];
}

abbrev policy : RestartPolicy ℕ
policy = record {
  initial_delay = 100;
  max_delay = 700;
  multiplier = 2_000_000_000;
  reset_after = 5000;
  jitter_factor = 0;
  wave_spawn_timeout = 500;
  provider_init_timeout = 500;
  wave_stop_timeout = 2000;
  trigger_max_retries = none;
}

abbrev moment : ℕ → Bool → ServiceGenerationOutcome → WaitingBranch → Moment fixed texts
moment now is_cancelled result waiting = record {
  now = now;
  wall = now;
  is_cancelled = is_cancelled;
  shutdown_requested = is_cancelled;
  watch_set = [];
  branch = finished;
  result = result;
  waiting = waiting;
  draw = λ lo hi. lo;
}

abbrev failure : ServiceGenerationOutcome
failure = ok (err (other (0x78 ∷ [])))

abbrev fails : ℕ → Moment fixed texts
fails now = moment now false failure slept

-- One generation that fails and is restarted after its delay.
abbrev round : List (Moment fixed texts)
round = fails 10 ∷ fails 20 ∷ fails 30 ∷ fails 40 ∷ []

abbrev fresh : ServiceSupervisor fixed texts
fresh = new fixed texts policy ServiceScheduling.standard false

abbrev stopping : ℕ → Moment fixed texts
stopping now = moment now true failure cancelled

-- A supervisor in the middle of a generation.
abbrev busy : ServiceSupervisor fixed texts
busy = record fresh {
  generation = 1;
  generation_start = some 5;
  generation_diagnostics = some no_stats;
  reload_token = some false;
}

run_loop-IsCoherent_example : IsCoherent fixed texts (run_loop fixed texts round (starting, fresh))
run_loop-IsCoherent_example = run_loop-IsCoherent fixed texts round fresh

run_loop-HasEnded_example : HasEnded fixed texts (
    run_loop fixed texts
      (stopping 50 ∷ stopping 60 ∷ round)
      (restart RestartDecision.immediate, busy))
run_loop-HasEnded_example =
    run_loop-HasEnded fixed texts (stopping 50) (stopping 60) round
      (restart RestartDecision.immediate, busy) refl refl (λ h. ground arith, refl)

on_outcome_exact_example :
    let r = ok (err (provider_init (0x70 ∷ []))) in
    let (st, s') = on_outcome fixed texts (fails 10) r busy in
    (is_terminated fixed texts st ≡ true)
    × (is_backoff fixed texts st ≡ false)
    × (s'.is_daemon_cancelled ≡ true)
on_outcome_exact_example =
    on_outcome_exact fixed texts (fails 10) (ok (err (provider_init (0x70 ∷ [])))) busy (refl, refl)
      refl

run_loop_backoff_bound_example :
    BackoffWithin fixed texts
      (longest_delay fixed texts policy)
      (run_loop fixed texts round
        (starting, new fixed texts policy ServiceScheduling.standard false)).1.facts.current_backoff
run_loop_backoff_bound_example =
    run_loop_backoff_bound fixed texts policy ServiceScheduling.standard false round

wait_for_restart_exact_example :
    let (proceeds, s') =
      wait_for_restart fixed texts
        (fails 10)
        (with_backoff RestartFailureKind.recoverable_error)
        busy in
    let d = (Storm.record_failure busy.restart_storm 10 busy.backoff.current_delay).1 in
    (proceeds ≡ true)
    × (s'.facts.current_backoff ≡ some d.effective_delay)
    × (busy.backoff.current_delay ≤ d.effective_delay)
    × (slept ≡ reload_notified → s'.backoff.current_delay ≡ busy.backoff.policy.initial_delay)
    × (slept ≡ slept → s'.backoff.current_delay ≤ busy.backoff.policy.max_delay)
wait_for_restart_exact_example =
    wait_for_restart_exact fixed texts (fails 10) RestartFailureKind.recoverable_error busy
      (λ h. ground arith)

run_loop-IsAccounted_example :
    IsAccounted fixed texts (
      run_loop fixed texts round
        (starting, new fixed texts policy ServiceScheduling.standard false))
run_loop-IsAccounted_example =
    run_loop-IsAccounted fixed texts policy ServiceScheduling.standard false round (omega arith)
