-- ===== src/TriggerRunner/Scaling.antt =====
-- core/trigger_runner/scaling.rs: the targets of the scale monitor, and what it does to the gate of a
-- runner that has no overlay store. `effective_max` is an argument, as in the code; `now` is the clock's reading.
pub mod Targets
pub mod Gates
pub mod Monitor
pub mod Policies
pub mod Rounds
pub mod Raising
pub mod Saturation
use service_daemon_rs.External.Semaphore.{Semaphore}
use service_daemon_rs.Prelude.{
  [], ℕ, ◌-◌, ◌/◌, ◌+◌, min, max, Bool, ◌||◌, Option, none, some, List, ltb, leb, if◌then◌else◌,
  unwrap_or, ◌∷◌,
}
use service_daemon_rs.Prelude.Words.{usize_max, u128_max, saturating_mul, saturating_add}
use service_daemon_rs.Policy.Scaling.{ScalingPolicy}
use service_daemon_rs.TriggerRunner.Gate.{Gate, Schedule, shrink, grow, Act, act_all}

abbrev within : ℕ → ℕ → ℕ
within limit effective_max = max (min limit effective_max) 1

-- `scale_down_target`: the target, and `idle_since` as the call leaves it.
unfoldable pub scale_down_target : ScalingPolicy → ℕ → ℕ → Option ℕ → ℕ → ℕ × Option ℕ
scale_down_target scaling limit effective_max none now = (within limit effective_max, none)
scale_down_target scaling limit effective_max (some since) now =
    let initial = within scaling.initial_concurrency effective_max in
    if ltb (now - since) scaling.scale_cooldown || leb limit initial
    then (within limit effective_max, some since)
    else (initial, none)

-- `pressure_limit_for`: `limit * threshold / (threshold + 1)` in 128 bits, both operations saturating.
unfoldable pub pressure_limit_for : ℕ → ℕ → ℕ
pressure_limit_for limit threshold =
    let numerator = saturating_mul u128_max limit threshold in
    let denominator = saturating_add u128_max threshold 1 in min (numerator / denominator) usize_max

-- `next_scaled_limit`.
unfoldable pub next_scaled_limit : ℕ → ScalingPolicy → ℕ
next_scaled_limit limit scaling =
    min (saturating_mul usize_max limit scaling.scale_factor) scaling.max_concurrency

-- `scale_up_target`.
unfoldable pub scale_up_target : ScalingPolicy → ℕ → ℕ → ℕ → ℕ
scale_up_target scaling limit in_flight effective_max =
    let max_concurrency = within scaling.max_concurrency effective_max in
    if leb max_concurrency limit
    then within limit max_concurrency
    else if ltb in_flight (pressure_limit_for limit scaling.scale_threshold)
    then within limit max_concurrency
    else min (next_scaled_limit limit scaling) max_concurrency

module _ (S : Semaphore) where
  open S use {available_permits}

  -- `limit.saturating_sub(available)`.
  abbrev pub in_flight : Gate S → ℕ
  in_flight g = g.current_limit - available_permits g.semaphore

  -- `try_scale_down`: the gate and `idle_since` after the call.
  unfoldable pub try_scale_down :
      ScalingPolicy → ℕ → Option ℕ → ℕ → Schedule S → Gate S → Gate S × Option ℕ
  try_scale_down scaling effective_max idle_since now sched g =
      let (target, idle) = scale_down_target scaling g.current_limit effective_max idle_since now in
      if leb g.current_limit target
      then (g, idle)
      else (shrink S (g.current_limit - target) sched g, none)

  -- `try_scale_up`: the gate after the call.
  unfoldable pub try_scale_up : ScalingPolicy → ℕ → Gate S → Gate S
  try_scale_up scaling effective_max g =
      let new_limit = scale_up_target scaling g.current_limit (in_flight g) effective_max in
      if leb new_limit g.current_limit then g else grow S new_limit g
