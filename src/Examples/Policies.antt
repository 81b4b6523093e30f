-- ===== src/Examples/Policies.antt =====
-- The theorems on policies at concrete inputs.
use service_daemon_rs.Examples.Instances.{fixed}
use service_daemon_rs.Prelude.{
  ℕ, ◌≤◌, ◌<◌, ◌≡◌, ◌⊎◌, refl, true, false, none, some, List, [], ◌∷◌, ok, arith, suc,
}
use service_daemon_rs.Policy.Scaling
use service_daemon_rs.Policy.Scaling.{ScalingPolicy, try_new, built}
use service_daemon_rs.Policy.Scaling.Validity.{IsValid, built-IsValid}
use service_daemon_rs.Policy.Storm
use service_daemon_rs.Policy.Storm.{RestartStormConfig, record_failure, default_config}
use service_daemon_rs.Policy.Storm.Window.{record_all}
use service_daemon_rs.Policy.Storm.Decision.{decision, recent, record_failure-history}
use service_daemon_rs.Policy.Restart.{RestartPolicy, next_delay}
use service_daemon_rs.Policy.Backoff
use service_daemon_rs.Policy.Backoff.Replay.{
  call_all, call_all-new, call_all_bounds, controller, pending_all, failure, ran_for, backoff, Call,
}
use service_daemon_rs.Policy.Overlay.{TriggerPolicyOverlay}

abbrev testing : ScalingPolicy
testing = record {
  initial_concurrency = 1;
  max_concurrency = 4;
  scale_factor = 2;
  scale_threshold = 2;
  scale_cooldown = 2_000_000_000;
}

abbrev setters : List Scaling.Setter
setters = Scaling.Setter.max_concurrency 3 ∷ Scaling.Setter.initial_concurrency 9 ∷ []

built-IsValid_example :
    IsValid (built setters)
    × (try_new
          (built setters).initial_concurrency
          (built setters).max_concurrency
          (built setters).scale_factor
          (built setters).scale_threshold
          (built setters).scale_cooldown
        ≡ ok (built setters))
built-IsValid_example = built-IsValid setters

abbrev brief : RestartStormConfig
brief = record { window = 20; failure_threshold = 3; suppression_delay = 30 }

record_failure-history_example :
    (record_failure (record_all (Storm.new brief) ((0, 1) ∷ (15, 2) ∷ (22, 4) ∷ [])) 30 8).1
    ≡ decision brief (suc (recent 20 30 ((0, 1) ∷ (15, 2) ∷ (22, 4) ∷ []))) 8
record_failure-history_example =
    record_failure-history brief ((0, 1) ∷ (15, 2) ∷ (22, 4) ∷ []) 30 8 (omega arith)

abbrev policy : RestartPolicy ℕ
policy = record {
  initial_delay = 100;
  max_delay = 700;
  multiplier = 2_000_000_000;
  reset_after = 5000;
  jitter_factor = 0;
  wave_spawn_timeout = 500;
  provider_init_timeout = 500;
  wave_stop_timeout = 2000;
  trigger_max_retries = none;
}

abbrev high : ℕ → ℕ → ℕ
high lo hi = hi

next_delay_doubles : next_delay fixed high policy 100 ≡ 200
unfolding next_delay
next_delay_doubles = refl

abbrev calls : List (Call fixed)
calls = failure high ∷ failure high ∷ ran_for 9000 ∷ backoff high true ∷ backoff high false ∷ []

call_all-new_example :
    call_all fixed (Backoff.new fixed policy) calls
    ≡ controller fixed policy (pending_all fixed policy [] calls)
call_all-new_example = call_all-new fixed policy calls

call_all_bounds_example :
    let b = call_all fixed (Backoff.new fixed policy) calls in
    ((b.attempt_count ≡ 0) × (b.current_delay ≡ 100))
    ⊎ ((0 < b.attempt_count) × (b.current_delay ≤ 700))
call_all_bounds_example = call_all_bounds fixed policy calls

abbrev overlay : TriggerPolicyOverlay fixed
overlay = record {
  reason = 0x20 ∷ 0x61 ∷ [];
  ttl = 30;
  concurrency_limit = some 2;
  dispatch_timeout = none;
  retry_policy = none;
}
