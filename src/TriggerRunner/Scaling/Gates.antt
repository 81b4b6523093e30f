-- ===== src/TriggerRunner/Scaling/Gates.antt =====
-- What scaling up and down and the acts of dispatches keep of a gate.
use service_daemon_rs.External.Semaphore.{Semaphore, Laws}
use service_daemon_rs.Prelude.{ℕ, ◌-◌, ◌≤◌, Option, List, arith}
use service_daemon_rs.Prelude.Words.{usize_max}
use service_daemon_rs.Policy.Scaling.{ScalingPolicy}
use service_daemon_rs.Policy.Scaling.Validity.{IsValid}
use service_daemon_rs.TriggerRunner.Gate.{Gate, Act, act_all, Schedule}
use service_daemon_rs.TriggerRunner.Gate.Balance.{
  IsBalanced, act_all-IsBalanced, act_all-limit, shrink-IsBalanced, grow-IsBalanced, grow-limit,
}
use service_daemon_rs.TriggerRunner.Scaling.{
  scale_down_target, scale_up_target, in_flight, try_scale_down, try_scale_up,
}
use service_daemon_rs.TriggerRunner.Scaling.Targets.{
  scale_down_target_bounds, scale_up_target_bounds,
}

module _ (S : Semaphore) (L : Laws S) where
  open S use {available_permits}

  -- What the monitor keeps of a runner's gate.
  pub record IsSound (p : ScalingPolicy) (g : Gate S) : Type 0 where
    pub balanced : IsBalanced S L g
    pub positive : 1 ≤ g.current_limit
    pub within : g.current_limit ≤ p.max_concurrency

  -- The configured numbers are 64-bit values.
  pub record Fits (p : ScalingPolicy) : Type 0 where
    pub valid : IsValid p
    pub max_fits : p.max_concurrency ≤ usize_max
    pub threshold_fits : p.scale_threshold ≤ usize_max

  pub try_scale_down-IsSound :
      (p : ScalingPolicy) (idle : Option ℕ) (now : ℕ) (sched : Schedule S) (g : Gate S)
      → Fits p
      → IsSound p g
      → IsSound p (try_scale_down S p p.max_concurrency idle now sched g).0
  unfolding try_scale_down
  try_scale_down-IsSound p idle now sched g f s =
      let target = (scale_down_target p g.current_limit p.max_concurrency idle now).0 in
      let bounds =
        scale_down_target_bounds p g.current_limit p.max_concurrency idle now (omega arith) in
      let kept = shrink-IsBalanced S L (g.current_limit - target) sched g s.balanced in
      record {
        balanced = ground (arith, kept);
        positive = ground (arith, kept, bounds);
        within = ground (arith, kept);
      }

  pub try_scale_up-IsSound :
      (p : ScalingPolicy) (g : Gate S)
      → Fits p
      → IsSound p g
      → IsSound p (try_scale_up S p p.max_concurrency g)
  unfolding try_scale_up
  try_scale_up-IsSound p g f s =
      let target = scale_up_target p g.current_limit (in_flight S g) p.max_concurrency in
      let bounds =
        scale_up_target_bounds p g.current_limit (in_flight S g) p.max_concurrency f.valid
          s.positive (omega arith) (omega arith) in
      let kept = grow-IsBalanced S L target g in
      record {
        balanced = ground (arith, kept, s.balanced, bounds);
        positive = ground (arith, bounds, grow-limit S L target g);
        within = ground (arith, bounds, grow-limit S L target g);
      }

  pub act_all-IsSound :
      (p : ScalingPolicy) (g : Gate S) (done : List (Act S))
      → IsSound p g
      → IsSound p (act_all S g done)
  act_all-IsSound p g done s = record {
    balanced = act_all-IsBalanced S L g done s.balanced;
    positive = omega (arith, act_all-limit S L g done);
    within = omega (arith, act_all-limit S L g done);
  }
