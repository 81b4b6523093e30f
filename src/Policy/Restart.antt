-- ===== src/Policy/Restart.antt =====
-- `RestartPolicy` and `RestartPolicyBuilder` of models/policy.rs. Durations are nanoseconds. The
-- two floating-point fields are of the type of a `F64`; the random draw is an argument.
pub mod Delay
use service_daemon_rs.External.Float.{F64}
use service_daemon_rs.Prelude.{
  ℕ, ◌*◌, min, Bool, true, false, not, ◌&&◌, ◌||◌, Option, none, some, List, [], ◌∷◌, map_or,
  if◌then◌else◌,
}

pub record RestartPolicy (Num : Type 0) : Type 0 where
  pub initial_delay : ℕ
  pub max_delay : ℕ
  pub multiplier : Num
  pub reset_after : ℕ
  pub jitter_factor : Num
  pub wave_spawn_timeout : ℕ
  pub provider_init_timeout : ℕ
  pub wave_stop_timeout : ℕ
  pub trigger_max_retries : Option ℕ

module _ (F : F64) where
  open F use {
    Num, zero_value, one_value, two_value, tenth_value, mul, add, neg, lt, le, is_finite, clamp,
    as_secs, try_from_secs,
  }

  -- `RestartPolicy::sanitized_multiplier`.
  unfoldable pub sanitized_multiplier : Num → Num
  sanitized_multiplier multiplier =
      if is_finite multiplier && lt zero_value multiplier then multiplier else one_value

  -- `RestartPolicy::sanitized_jitter_factor`.
  unfoldable pub sanitized_jitter_factor : Num → Num
  sanitized_jitter_factor factor =
      if is_finite factor then clamp factor zero_value one_value else zero_value

  -- The last lines of `next_delay`, from the seconds that were computed.
  pub bounded : ℕ → Num → ℕ
  bounded max_delay next_seconds =
      if not (is_finite next_seconds) || le (as_secs max_delay) next_seconds
      then max_delay
      else if le next_seconds zero_value
      then 0
      else map_or (try_from_secs next_seconds) max_delay (λ next. min next max_delay)

  -- `base` with its jitter; `draw lo hi` is the generator's answer for `lo..=hi`.
  pub jittered : (Num → Num → Num) → Num → Num → Num
  jittered draw jitter_factor base =
      let jitter_range = mul base jitter_factor in
      if lt zero_value jitter_factor && lt zero_value base
      then add base (draw (neg jitter_range) jitter_range)
      else base

  -- `RestartPolicy::next_delay`.
  unfoldable pub next_delay : (Num → Num → Num) → RestartPolicy Num → ℕ → ℕ
  unfolding sanitized_multiplier sanitized_jitter_factor bounded jittered
  next_delay draw p current_delay =
      let max_delay_seconds = as_secs p.max_delay in
      let base = mul (as_secs current_delay) (sanitized_multiplier p.multiplier) in
      if le max_delay_seconds zero_value
      then 0
      else if not (is_finite base) || le max_delay_seconds base
      then p.max_delay
      else bounded p.max_delay (jittered draw (sanitized_jitter_factor p.jitter_factor) base)

  -- The setters of `RestartPolicyBuilder`.
  pub data Setter : Type 0 where
    initial_delay max_delay reset_after wave_spawn_timeout provider_init_timeout : ℕ → Setter
    wave_stop_timeout trigger_max_retries : ℕ → Setter
    multiplier jitter_factor : Num → Setter

  pub apply : Setter → RestartPolicy Num → RestartPolicy Num
  unfolding sanitized_multiplier sanitized_jitter_factor
  apply (Setter.initial_delay delay) p = record p { initial_delay = delay }
  apply (Setter.max_delay delay) p = record p { max_delay = delay }
  apply (Setter.reset_after duration) p = record p { reset_after = duration }
  apply (Setter.wave_spawn_timeout timeout) p = record p { wave_spawn_timeout = timeout }
  apply (Setter.provider_init_timeout timeout) p = record p { provider_init_timeout = timeout }
  apply (Setter.wave_stop_timeout timeout) p = record p { wave_stop_timeout = timeout }
  apply (Setter.trigger_max_retries count) p = record p { trigger_max_retries = some count }
  apply (Setter.multiplier m) p = record p { multiplier = sanitized_multiplier m }
  apply (Setter.jitter_factor f) p = record p { jitter_factor = sanitized_jitter_factor f }

  -- `Default for RestartPolicy`.
  pub default : RestartPolicy Num
  default = record {
    initial_delay = 1_000_000_000;
    max_delay = 300 * 1_000_000_000;
    multiplier = two_value;
    reset_after = 60 * 1_000_000_000;
    jitter_factor = tenth_value;
    wave_spawn_timeout = 5 * 1_000_000_000;
    provider_init_timeout = 5 * 1_000_000_000;
    wave_stop_timeout = 30 * 1_000_000_000;
    trigger_max_retries = none;
  }

  pub apply_all : List Setter → RestartPolicy Num → RestartPolicy Num
  apply_all [] p = p
  apply_all (s ∷ ss) p = apply_all ss (apply s p)
