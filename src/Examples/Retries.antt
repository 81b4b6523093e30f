-- ===== src/Examples/Retries.antt =====
-- The theorems on retries at concrete inputs.
use service_daemon_rs.Examples.Instances.{fixed}
use service_daemon_rs.Prelude.{
  ℕ, ◌≡◌, refl, true, false, Option, none, some, List, [], ◌∷◌, ◌++◌, err, arith,
}
use service_daemon_rs.Policy.Restart.{RestartPolicy}
use service_daemon_rs.Supervisor.Exit.{handler_retry_exhausted}
use service_daemon_rs.TriggerRunner.Retry.{Attempt, intercept}
use service_daemon_rs.TriggerRunner.Retry.Limit.{intercept_exhausted}

abbrev policy : RestartPolicy ℕ
policy = record {
  initial_delay = 100;
  max_delay = 700;
  multiplier = 2_000_000_000;
  reset_after = 5000;
  jitter_factor = 0;
  wave_spawn_timeout = 500;
  provider_init_timeout = 500;
  wave_stop_timeout = 2000;
  trigger_max_retries = some 2;
}

abbrev call : Option (List ℕ) → Attempt fixed
call error = record {
  error = error;
  wall = 7;
  is_shutdown = false;
  slept = true;
  draw = λ lo hi. lo;
}

abbrev bad : Attempt fixed
bad = call (some (0x65 ∷ []))

abbrev good : Attempt fixed
good = call none

intercept_exhausted_example :
    ((intercept fixed policy none ((bad ∷ bad ∷ []) ++ good ∷ [])).1
      ≡ some (err handler_retry_exhausted))
    × ((intercept fixed policy none ((bad ∷ bad ∷ []) ++ good ∷ [])).0.calls ≡ 2)
intercept_exhausted_example =
    intercept_exhausted fixed policy none 2 (bad ∷ bad ∷ []) (good ∷ []) refl
      ((refl, refl, refl), ((refl, refl, refl), tt)) (omega arith) refl
