-- ===== src/Policy/Scaling.antt =====
-- `ScalingPolicy`, `ScalingPolicyError` and `ScalingPolicyBuilder` of models/policy.rs.
-- Durations are nanoseconds; `usize` values are natural numbers.
pub mod Validity
use service_daemon_rs.Prelude.{
  ℕ, ◌*◌, ◌≤◌, max, min, Bool, List, [], ◌∷◌, ltb, ◌==◌, if◌then◌else◌, Result, ok, err,
}

pub record ScalingPolicy : Type 0 where
  pub initial_concurrency : ℕ
  pub max_concurrency : ℕ
  pub scale_factor : ℕ
  pub scale_threshold : ℕ
  pub scale_cooldown : ℕ

pub data ScalingPolicyError : Type 0 where
  initial_concurrency_zero max_concurrency_zero scale_threshold_zero : ScalingPolicyError
  scale_factor_too_small initial_concurrency_exceeds_max : ℕ → ℕ → ScalingPolicyError

-- `ScalingPolicy::try_new`: five early returns, in the code's order.
pub try_new : ℕ → ℕ → ℕ → ℕ → ℕ → Result ScalingPolicy ScalingPolicyError
try_new initial_concurrency max_concurrency scale_factor scale_threshold scale_cooldown =
    if initial_concurrency == 0
    then err ScalingPolicyError.initial_concurrency_zero
    else if max_concurrency == 0
    then err ScalingPolicyError.max_concurrency_zero
    else if ltb scale_factor 2
    then err (ScalingPolicyError.scale_factor_too_small scale_factor 2)
    else if scale_threshold == 0
    then err ScalingPolicyError.scale_threshold_zero
    else if ltb max_concurrency initial_concurrency
    then err
        (ScalingPolicyError.initial_concurrency_exceeds_max initial_concurrency max_concurrency)
    else ok (record {
      initial_concurrency = initial_concurrency;
      max_concurrency = max_concurrency;
      scale_factor = scale_factor;
      scale_threshold = scale_threshold;
      scale_cooldown = scale_cooldown;
    })

-- `Default for ScalingPolicy`.
pub default : ScalingPolicy
default = record {
  initial_concurrency = 1;
  max_concurrency = 64;
  scale_factor = 2;
  scale_threshold = 5;
  scale_cooldown = 30 * 1_000_000_000;
}

-- The setters of `ScalingPolicyBuilder`, each with the argument of its call.
pub data Setter : Type 0 where
  initial_concurrency max_concurrency scale_factor scale_threshold scale_cooldown : ℕ → Setter

-- What a setter does to the builder's policy.
pub apply : Setter → ScalingPolicy → ScalingPolicy
apply (Setter.initial_concurrency count) p = record p { initial_concurrency = max count 1 }
apply (Setter.max_concurrency count) p = record p { max_concurrency = max count 1 }
apply (Setter.scale_factor factor) p = record p { scale_factor = max factor 2 }
apply (Setter.scale_threshold threshold) p = record p { scale_threshold = max threshold 1 }
apply (Setter.scale_cooldown duration) p = record p { scale_cooldown = duration }

pub apply_all : List Setter → ScalingPolicy → ScalingPolicy
apply_all [] p = p
apply_all (s ∷ ss) p = apply_all ss (apply s p)

-- `ScalingPolicyBuilder::build`.
pub build : ScalingPolicy → ScalingPolicy
build policy = record policy {
  initial_concurrency = min policy.initial_concurrency policy.max_concurrency;
}

-- A chain of builder calls: `ScalingPolicy::builder()`, the setters in order, `build()`.
pub built : List Setter → ScalingPolicy
unfolding default build apply apply_all
built setters = build (apply_all setters default)
