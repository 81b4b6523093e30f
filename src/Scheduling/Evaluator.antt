-- ===== src/Scheduling/Evaluator.antt =====
-- core/adaptive_scheduling.rs: `DiagnosticsWindow` and `SchedulingPolicyEvaluator`. What `push` adds to
-- the vector of recommendations is the list that a function returns.
pub mod Advice
use service_daemon_rs.Prelude.{
  ℕ, ◌+◌, Bool, true, false, not, ◌&&◌, ◌||◌, Option, none, some, List, [], ◌∷◌, ◌++◌, ltb, leb,
  if◌then◌else◌,
}
use service_daemon_rs.Prelude.Words.{u64_max, saturating_mul, wrapping_add64}
use service_daemon_rs.Diagnostics.{RuntimeLane}
use service_daemon_rs.Scheduling.Window.{
  ObservationWindow, LifecycleWindow, DiagnosticsAggregateWindow,
}

-- A name is a list of code points.
pub record ServiceDiagnosticsWindow : Type 0 where
  pub service_id : ℕ
  pub service_name : List ℕ
  pub current_generation : ℕ
  pub runtime_lane : RuntimeLane
  pub aggregate : DiagnosticsAggregateWindow

pub record GenerationDiagnosticsWindow : Type 0 where
  pub service_id : ℕ
  pub service_name : List ℕ
  pub generation : ℕ
  pub runtime_lane : RuntimeLane
  pub aggregate : DiagnosticsAggregateWindow

pub record RuntimeLaneWindow : Type 0 where
  pub runtime_lane : RuntimeLane
  pub aggregate : DiagnosticsAggregateWindow

pub record DiagnosticsWindow : Type 0 where
  pub has_baseline : Bool
  pub services : List ServiceDiagnosticsWindow
  pub generations : List GenerationDiagnosticsWindow
  pub lanes : List RuntimeLaneWindow

pub data SchedulingRecommendationTarget : Type 0 where
  runtime_lane : RuntimeLane → SchedulingRecommendationTarget
  service : ℕ → List ℕ → ℕ → SchedulingRecommendationTarget
  generation : ℕ → List ℕ → ℕ → RuntimeLane → SchedulingRecommendationTarget

pub data SchedulingRecommendationAction : Type 0 where
  keep_current_lane observe investigate_control_plane consider_isolation :
      SchedulingRecommendationAction

pub data SchedulingRecommendationReason : Type 0 where
  standard_lane_pressure standard_service_sleep_drift control_plane_pressure
        high_priority_saturation isolated_resource_pressure lifecycle_instability :
      SchedulingRecommendationReason

pub data RecommendationConfidence : Type 0 where
  low medium high : RecommendationConfidence

-- `RecommendationObservation` copies the counts of one observation window and of the lifecycle window.
pub record SchedulingRecommendation : Type 0 where
  pub target : SchedulingRecommendationTarget
  pub current_lane : Option RuntimeLane
  pub action : SchedulingRecommendationAction
  pub reason : SchedulingRecommendationReason
  pub confidence : RecommendationConfidence
  pub observation : ObservationWindow
  pub lifecycle : LifecycleWindow

pub record SchedulingPolicyThresholds : Type 0 where
  pub minimum_completed_samples : ℕ
  pub high_avg_drift_ms : ℕ
  pub restart_instability_threshold : ℕ
  pub isolated_pressure_threshold : ℕ

-- `Default for SchedulingPolicyThresholds`.
abbrev pub default_thresholds : SchedulingPolicyThresholds
default_thresholds = record {
  minimum_completed_samples = 3;
  high_avg_drift_ms = 100;
  restart_instability_threshold = 2;
  isolated_pressure_threshold = 1;
}

abbrev pub is_standard : RuntimeLane → Bool
is_standard RuntimeLane.standard = true
is_standard l = false

abbrev pub is_isolated : RuntimeLane → Bool
is_isolated RuntimeLane.isolated = true
is_isolated l = false

-- `Iterator::any`.
abbrev pub any {ℓ} : {A : Type ℓ} → (A → Bool) → List A → Bool
any p [] = false
any p (x ∷ xs) = p x || any p xs

abbrev pub flat_map {ℓ κ} : {A : Type ℓ} {B : Type κ} → (A → List B) → List A → List B
flat_map f [] = []
flat_map f (x ∷ xs) = f x ++ flat_map f xs

module _ (thresholds : SchedulingPolicyThresholds) where
  open thresholds use {
    minimum_completed_samples, high_avg_drift_ms, restart_instability_threshold,
    isolated_pressure_threshold,
  }

  unfoldable pub observation_has_drift_pressure : ObservationWindow → Bool
  observation_has_drift_pressure o =
      not (ltb o.completed minimum_completed_samples) && leb high_avg_drift_ms o.avg_drift_ms

  unfoldable pub lifecycle_has_instability : LifecycleWindow → Bool
  lifecycle_has_instability l =
      ltb 0 l.rate_limited_restart
      || leb restart_instability_threshold l.backoff_restart
      || leb restart_instability_threshold l.restart
      || leb restart_instability_threshold l.recoverable_error
      || ltb 0 l.panic
      || ltb 0 l.fatal_service_error
      || ltb 0 l.provider_init_error

  unfoldable pub lifecycle_has_isolated_pressure : LifecycleWindow → Bool
  lifecycle_has_isolated_pressure l =
      leb isolated_pressure_threshold
        (wrapping_add64 l.isolated_startup_failure l.rate_limited_restart)

  unfoldable pub confidence_for_observation : ObservationWindow → RecommendationConfidence
  confidence_for_observation o =
      if leb (saturating_mul u64_max minimum_completed_samples 2) o.completed
        && leb (saturating_mul u64_max high_avg_drift_ms 2) o.avg_drift_ms
      then high
      else medium

  -- `runtime_lane_has_probe_pressure` of the standard lane.
  unfoldable pub standard_lane_has_pressure : DiagnosticsWindow → Bool
  standard_lane_has_pressure w =
      any
        (λ (l : RuntimeLaneWindow).
          is_standard l.runtime_lane && observation_has_drift_pressure l.aggregate.runtime_probe)
        w.lanes

  unfoldable pub has_isolated_pressure : DiagnosticsWindow → Bool
  has_isolated_pressure w =
      any
        (λ (l : RuntimeLaneWindow).
          is_isolated l.runtime_lane && lifecycle_has_isolated_pressure l.aggregate.lifecycle)
        w.lanes
      || any
          (λ (g : GenerationDiagnosticsWindow).
            is_isolated g.runtime_lane && lifecycle_has_isolated_pressure g.aggregate.lifecycle)
          w.generations

  -- The `match` on the lane in `evaluate_lane`.
  abbrev pub lane_advice :
      RuntimeLane → SchedulingRecommendationAction × SchedulingRecommendationReason
  lane_advice RuntimeLane.control = (investigate_control_plane, control_plane_pressure)
  lane_advice RuntimeLane.standard = (observe, standard_lane_pressure)
  lane_advice RuntimeLane.high_priority = (observe, high_priority_saturation)
  lane_advice RuntimeLane.isolated = (observe, isolated_resource_pressure)

  unfoldable pub evaluate_lane : RuntimeLaneWindow → List SchedulingRecommendation
  evaluate_lane lane =
      (if observation_has_drift_pressure lane.aggregate.runtime_probe
        then record {
          target = runtime_lane lane.runtime_lane;
          current_lane = some lane.runtime_lane;
          action = (lane_advice lane.runtime_lane).0;
          reason = (lane_advice lane.runtime_lane).1;
          confidence = confidence_for_observation lane.aggregate.runtime_probe;
          observation = lane.aggregate.runtime_probe;
          lifecycle = lane.aggregate.lifecycle;
        }
          ∷ []
        else [])
      ++ (if is_isolated lane.runtime_lane
            && lifecycle_has_isolated_pressure lane.aggregate.lifecycle
          then record {
            target = runtime_lane RuntimeLane.isolated;
            current_lane = some RuntimeLane.isolated;
            action = observe;
            reason = isolated_resource_pressure;
            confidence = high;
            observation = lane.aggregate.runtime_probe;
            lifecycle = lane.aggregate.lifecycle;
          }
            ∷ []
          else [])

  -- A recommendation on a generation or a service, which `evaluate_generation` and `evaluate_service`
  -- write out.
  abbrev pub on_generation :
      GenerationDiagnosticsWindow
      → SchedulingRecommendationAction
      → SchedulingRecommendationReason
      → SchedulingRecommendation
  on_generation g action reason = record {
    target = generation g.service_id g.service_name g.generation g.runtime_lane;
    current_lane = some g.runtime_lane;
    action = action;
    reason = reason;
    confidence = high;
    observation = g.aggregate.service_sleep;
    lifecycle = g.aggregate.lifecycle;
  }

  unfoldable pub evaluate_generation : GenerationDiagnosticsWindow → List SchedulingRecommendation
  evaluate_generation g =
      if lifecycle_has_instability g.aggregate.lifecycle
      then on_generation g keep_current_lane lifecycle_instability ∷ []
      else if is_isolated g.runtime_lane && lifecycle_has_isolated_pressure g.aggregate.lifecycle
      then on_generation g observe isolated_resource_pressure ∷ []
      else []

  abbrev pub on_service :
      ServiceDiagnosticsWindow
      → SchedulingRecommendationAction
      → SchedulingRecommendationReason
      → RecommendationConfidence
      → SchedulingRecommendation
  on_service s action reason confidence = record {
    target = service s.service_id s.service_name s.current_generation;
    current_lane = some s.runtime_lane;
    action = action;
    reason = reason;
    confidence = confidence;
    observation = s.aggregate.service_sleep;
    lifecycle = s.aggregate.lifecycle;
  }

  unfoldable pub evaluate_service :
      Bool → Bool → ServiceDiagnosticsWindow → List SchedulingRecommendation
  evaluate_service lane_pressed isolated_pressed s =
      if lifecycle_has_instability s.aggregate.lifecycle
      then on_service s keep_current_lane lifecycle_instability high ∷ []
      else if not (is_standard s.runtime_lane)
          || not (observation_has_drift_pressure s.aggregate.service_sleep)
      then []
      else on_service s (if lane_pressed || isolated_pressed then observe else consider_isolation)
          standard_service_sleep_drift low
        ∷ []

  -- `SchedulingPolicyEvaluator::evaluate`.
  unfoldable pub evaluate : DiagnosticsWindow → List SchedulingRecommendation
  evaluate w =
      if not w.has_baseline
      then []
      else flat_map evaluate_lane w.lanes
        ++ flat_map evaluate_generation w.generations
        ++ flat_map (evaluate_service (standard_lane_has_pressure w) (has_isolated_pressure w))
            w.services
