-- ===== src/TriggerRunner/Scaling/Targets.antt =====
-- Bounds of the targets.
use service_daemon_rs.Prelude.{ℕ, ◌*◌, ◌/◌, ◌+◌, ◌≤◌, ◌<◌, ◌≡◌, min, max, Option, none, some, arith}
use service_daemon_rs.Prelude.Words.{usize_max, u128_max}
use service_daemon_rs.Policy.Scaling.{ScalingPolicy}
use service_daemon_rs.Policy.Scaling.Validity.{IsValid}
use service_daemon_rs.TriggerRunner.Scaling.{
  scale_down_target, pressure_limit_for, next_scaled_limit, scale_up_target,
}

-- Every target is at least 1 and, with a positive bound, at most the bound.
pub scale_down_target_bounds :
    (p : ScalingPolicy) (limit bound : ℕ) (idle : Option ℕ) (now : ℕ)
    → 1 ≤ bound
    → (1 ≤ (scale_down_target p limit bound idle now).0)
      × ((scale_down_target p limit bound idle now).0 ≤ bound)
      × ((scale_down_target p limit bound idle now).0 ≤ max limit 1)
unfolding scale_down_target
scale_down_target_bounds p limit bound none now h = omega arith
scale_down_target_bounds p limit bound (some since) now h =
    (ground arith, ground arith, ground arith)

numerator_fits :
    (limit threshold : ℕ) → limit ≤ usize_max → threshold ≤ usize_max → limit * threshold ≤ u128_max
numerator_fits limit threshold h k = grind arith

quotient-le : (limit threshold : ℕ) → limit * threshold / (threshold + 1) ≤ limit
quotient-le limit threshold = grind arith

quotient-lt : (limit threshold : ℕ) → 0 < limit → limit * threshold / (threshold + 1) < limit
quotient-lt limit threshold h = grind arith

min_left : {a b : ℕ} → a ≤ b → min a b ≡ a
min_left h = omega arith

-- On 64-bit operands nothing saturates: the pressure limit is the quotient, and it is below a
-- positive limit.
pub pressure_limit_for_exact :
    (limit threshold : ℕ)
    → limit ≤ usize_max
    → threshold ≤ usize_max
    → 0 < limit
    → (pressure_limit_for limit threshold ≡ limit * threshold / (threshold + 1))
      × (pressure_limit_for limit threshold < limit)
unfolding pressure_limit_for
pressure_limit_for_exact limit threshold h k pos =
    rw (min_left (numerator_fits limit threshold h k), den)
      (
        omega (arith, quotient-lt limit threshold pos),
        omega (arith, quotient-lt limit threshold pos),
      )
  where
    den : min (threshold + 1) u128_max ≡ threshold + 1
    den = omega arith

pub double-le-mul : (limit factor : ℕ) → 2 ≤ factor → limit + limit ≤ limit * factor
double-le-mul limit factor h = grind arith

-- A scale-up never lowers a limit that lies within the bound, and never passes the bound.
pub scale_up_target_bounds :
    (p : ScalingPolicy) (limit in_flight bound : ℕ)
    → IsValid p
    → 1 ≤ limit
    → 1 ≤ bound
    → limit ≤ usize_max
    → let target = scale_up_target p limit in_flight bound in
      (1 ≤ target)
      × (target ≤ min p.max_concurrency bound)
      × (min limit (min p.max_concurrency bound) ≤ target)
unfolding scale_up_target next_scaled_limit
scale_up_target_bounds p limit in_flight bound v l b u =
    let more = double-le-mul limit p.scale_factor v.factor_grows in
    (ground arith, ground arith, ground arith)

-- With every permit in use the next target is the limit times the factor, cut at the maximum.
pub scale_up_target_full :
    (p : ScalingPolicy) (limit : ℕ)
    → IsValid p
    → 1 ≤ limit
    → limit ≤ p.max_concurrency
    → p.max_concurrency ≤ usize_max
    → p.scale_threshold ≤ usize_max
    → scale_up_target p limit limit p.max_concurrency
      ≡ min (limit * p.scale_factor) p.max_concurrency
unfolding scale_up_target next_scaled_limit
scale_up_target_full p limit v l m u t =
    let more = double-le-mul limit p.scale_factor v.factor_grows in
    let below = (pressure_limit_for_exact limit p.scale_threshold (omega arith) t l).1 in
    ground arith
