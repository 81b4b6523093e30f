-- ===== src/Policy/Storm.antt =====
-- `RestartStormConfig`, `RestartStormDecision` and `RestartStormGuard` of models/policy.rs.
-- An `Instant` is the nanoseconds since a fixed moment; the deque is a list, oldest first.
pub mod Window
pub mod Decision
use service_daemon_rs.Prelude.{
  ℕ, ◌*◌, ◌-◌, max, Bool, true, false, Option, none, some, List, [], ◌∷◌, ◌++◌, ltb, leb,
  if◌then◌else◌, length,
}

pub record RestartStormConfig : Type 0 where
  pub window : ℕ
  pub failure_threshold : ℕ
  pub suppression_delay : ℕ

-- `Default for RestartStormConfig`.
pub default_config : RestartStormConfig
default_config = record {
  window = 20 * 1_000_000_000;
  failure_threshold = 6;
  suppression_delay = 30 * 1_000_000_000;
}

pub record RestartStormDecision : Type 0 where
  pub policy_delay : ℕ
  pub effective_delay : ℕ
  pub rate_limited : Bool
  pub window_failures : ℕ

pub record RestartStormGuard : Type 0 where
  pub config : RestartStormConfig
  pub failures : List ℕ

-- `RestartStormGuard::new` raises the threshold to at least 1.
unfoldable pub new : RestartStormConfig → RestartStormGuard
new config = record {
  config = record config { failure_threshold = max config.failure_threshold 1 };
  failures = [];
}

-- `now.checked_duration_since(failure)`.
abbrev pub checked_duration_since : ℕ → ℕ → Option ℕ
checked_duration_since now failure = if leb failure now then some (now - failure) else none

abbrev exceeds : ℕ → Option ℕ → Bool
exceeds window none = false
exceeds window (some elapsed) = ltb window elapsed

-- The test of the loop in `prune`.
abbrev pub is_stale : ℕ → ℕ → ℕ → Bool
is_stale window now failure = exceeds window (checked_duration_since now failure)

-- The loop of `prune`: it drops from the front, and stops at the first entry that is not stale.
pub prune : ℕ → ℕ → List ℕ → List ℕ
prune window now [] = []
prune window now (failure ∷ rest) = elim (is_stale window now failure) [
  | true ↦ prune window now rest
  | false ↦ failure ∷ rest
]

-- The delay that the guard asks for when its window holds so many failures.
abbrev pub storm_delay : RestartStormConfig → ℕ → ℕ
storm_delay config window_failures =
    if leb config.failure_threshold window_failures then config.suppression_delay else 0

-- `RestartStormGuard::record_failure`.
unfoldable pub record_failure : RestartStormGuard → ℕ → ℕ → RestartStormGuard × RestartStormDecision
record_failure g now policy_delay =
    let failures = prune g.config.window now g.failures ++ now ∷ [] in
    let window_failures = length failures in
    let effective_delay = max policy_delay (storm_delay g.config window_failures) in
    (
      record g { failures = failures },
      record {
        policy_delay = policy_delay;
        effective_delay = effective_delay;
        rate_limited = ltb policy_delay effective_delay;
        window_failures = window_failures;
      },
    )

-- `RestartStormGuard::reset` and `RestartStormGuard::maybe_reset`.
unfoldable pub reset : RestartStormGuard → RestartStormGuard
reset g = record g { failures = [] }

unfoldable pub maybe_reset : RestartStormGuard → ℕ → ℕ → RestartStormGuard
unfolding reset
maybe_reset g elapsed reset_after = if leb reset_after elapsed then reset g else g
