-- ===== src/Policy/Backoff.antt =====
-- `BackoffController` of models/policy.rs. Each retry's random draw is an argument of the failure.
pub mod Replay
use service_daemon_rs.External.Float.{F64}
use service_daemon_rs.Prelude.{ℕ, Bool, true, false, List, [], ◌∷◌, leb, if◌then◌else◌}
use service_daemon_rs.Prelude.Words.{saturating_add, u32_max}
use service_daemon_rs.Policy.Restart.{RestartPolicy, next_delay}

module _ (F : F64) where
  open F use {Num}

  pub record BackoffController : Type 0 where
    pub policy : RestartPolicy Num
    pub current_delay : ℕ
    pub attempt_count : ℕ

  -- `BackoffController::new`.
  unfoldable pub new : RestartPolicy Num → BackoffController
  new policy = record { policy = policy; current_delay = policy.initial_delay; attempt_count = 0 }

  unfoldable pub record_success : BackoffController → BackoffController
  record_success b = record b { current_delay = b.policy.initial_delay; attempt_count = 0 }

  unfoldable pub record_failure : (Num → Num → Num) → BackoffController → BackoffController
  record_failure draw b = record b {
    attempt_count = saturating_add u32_max b.attempt_count 1;
    current_delay = next_delay F draw b.policy b.current_delay;
  }

  unfoldable pub maybe_reset : ℕ → BackoffController → BackoffController
  unfolding record_success
  maybe_reset elapsed b = if leb b.policy.reset_after elapsed then record_success b else b

  -- `backoff_or_cancel`: `slept` says that the sleep ended before the token was cancelled, which is
  -- the answer of `wait_or_cancel`.
  unfoldable pub backoff_or_cancel :
      (Num → Num → Num) → Bool → BackoffController → BackoffController × Bool
  unfolding record_failure
  backoff_or_cancel draw slept b = if slept then (record_failure draw b, true) else (b, false)
