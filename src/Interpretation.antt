-- ===== src/Interpretation.antt =====
-- models/diagnostics.rs: the labels that the public snapshots of the diagnostics carry, and
-- `scheduling_from_lane`.
pub mod Agreement
use service_daemon_rs.Prelude.{
  ℕ, Bool, true, false, not, ◌&&◌, ◌||◌, Option, none, some, List, [], ◌∷◌, ◌++◌, ltb, leb,
  if◌then◌else◌,
}
use service_daemon_rs.Prelude.Words.{u64_max, saturating_mul}
use service_daemon_rs.Diagnostics.{RuntimeLane, ServiceScheduling, LifecycleStats}
use service_daemon_rs.Scheduling.Observation.{ObservationStatsSnapshot}
use service_daemon_rs.Scheduling.Window.{DiagnosticsAggregateSnapshot}

pub data DiagnosticConfidence : Type 0 where
  low medium high : DiagnosticConfidence

pub data DiagnosticInterpretationLabel : Type 0 where
  low_sample_suppressed host_runtime_wake_delay_suspected service_local_wake_delay_suspected
        service_impacted_by_lane_pressure blocking_risk_suspected wake_storm_suspected
        lifecycle_instability :
      DiagnosticInterpretationLabel

pub data DiagnosticRecommendationHint : Type 0 where
  continue_observing investigate_host_runtime check_blocking_work add_business_tracing
        consider_declared_mode_change investigate_lifecycle_instability :
      DiagnosticRecommendationHint

-- The function `interpretation` of the source makes one of its three fields.
pub record DiagnosticInterpretation : Type 0 where
  pub label : DiagnosticInterpretationLabel
  pub confidence : DiagnosticConfidence
  pub recommendations : List DiagnosticRecommendationHint

-- The constants.
abbrev pub minimum_completed_samples : ℕ
minimum_completed_samples = 3

abbrev pub high_avg_drift_ms : ℕ
high_avg_drift_ms = 100

abbrev pub blocking_risk_avg_drift_ms : ℕ
blocking_risk_avg_drift_ms = 250

abbrev pub wake_storm_max_drift_ms : ℕ
wake_storm_max_drift_ms = 500

abbrev pub restart_instability_threshold : ℕ
restart_instability_threshold = 2

unfoldable pub observation_is_low_sample : ObservationStatsSnapshot → Bool
observation_is_low_sample o = ltb o.completed minimum_completed_samples

unfoldable pub observation_has_drift_pressure : ObservationStatsSnapshot → Bool
unfolding observation_is_low_sample
observation_has_drift_pressure o =
    not (observation_is_low_sample o) && leb high_avg_drift_ms o.avg_drift_ms

unfoldable pub observation_has_wake_storm : ObservationStatsSnapshot → Bool
unfolding observation_is_low_sample
observation_has_wake_storm o =
    not (observation_is_low_sample o)
    && leb wake_storm_max_drift_ms o.max_drift_ms
    && leb (saturating_mul u64_max o.avg_drift_ms 3) o.max_drift_ms

unfoldable pub lifecycle_has_instability : LifecycleStats → Bool
lifecycle_has_instability l =
    ltb 0 l.rate_limited_restart
    || leb restart_instability_threshold l.backoff_restart
    || leb restart_instability_threshold l.restart
    || leb restart_instability_threshold l.recoverable_error
    || ltb 0 l.panic
    || ltb 0 l.fatal_service_error
    || ltb 0 l.provider_init_error

unfoldable pub confidence_for_observation : ObservationStatsSnapshot → DiagnosticConfidence
confidence_for_observation o =
    if leb (saturating_mul u64_max minimum_completed_samples 2) o.completed
      && leb (saturating_mul u64_max high_avg_drift_ms 2) o.avg_drift_ms
    then high
    else medium

abbrev pub is_standard : RuntimeLane → Bool
is_standard RuntimeLane.standard = true
is_standard lane = false

-- `standard_lane_has_pressure`, of a lane with its aggregate.
unfoldable pub standard_lane_has_pressure : RuntimeLane → DiagnosticsAggregateSnapshot → Bool
unfolding observation_has_drift_pressure
standard_lane_has_pressure lane aggregate =
    is_standard lane && observation_has_drift_pressure aggregate.runtime_probe

-- An entry that is pushed under a condition.
abbrev pub push_if : Bool → DiagnosticInterpretation → List DiagnosticInterpretation
push_if true i = i ∷ []
push_if false i = []

abbrev pub low_sample : DiagnosticInterpretation
low_sample = record {
  label = low_sample_suppressed;
  confidence = low;
  recommendations = continue_observing ∷ [];
}

unfoldable pub lane_interpretations :
    RuntimeLane → DiagnosticsAggregateSnapshot → List DiagnosticInterpretation
unfolding observation_is_low_sample observation_has_drift_pressure observation_has_wake_storm
    confidence_for_observation
lane_interpretations lane aggregate =
    let observation = aggregate.runtime_probe in
    if not (is_standard lane)
    then []
    else if observation_is_low_sample observation
    then low_sample ∷ []
    else push_if (observation_has_drift_pressure observation) (record {
      label = host_runtime_wake_delay_suspected;
      confidence = confidence_for_observation observation;
      recommendations = investigate_host_runtime ∷ check_blocking_work ∷ [];
    })
      ++ push_if (observation_has_wake_storm observation) (record {
        label = wake_storm_suspected;
        confidence = medium;
        recommendations = investigate_host_runtime ∷ add_business_tracing ∷ [];
      })

abbrev pub delay_of : Bool → DiagnosticInterpretation
delay_of true = record {
  label = service_impacted_by_lane_pressure;
  confidence = low;
  recommendations = investigate_host_runtime ∷ add_business_tracing ∷ [];
}
delay_of false = record {
  label = service_local_wake_delay_suspected;
  confidence = low;
  recommendations = check_blocking_work ∷ add_business_tracing ∷ consider_declared_mode_change ∷ [];
}

unfoldable pub service_interpretations :
    RuntimeLane → DiagnosticsAggregateSnapshot → Bool → List DiagnosticInterpretation
unfolding observation_is_low_sample observation_has_drift_pressure observation_has_wake_storm
    confidence_for_observation lifecycle_has_instability
service_interpretations lane aggregate standard_lane_pressure =
    let observation = aggregate.service_sleep in
    if not (is_standard lane)
    then []
    else if lifecycle_has_instability aggregate.lifecycle
    then record {
      label = lifecycle_instability;
      confidence = high;
      recommendations = investigate_lifecycle_instability ∷ [];
    }
      ∷ []
    else if observation_is_low_sample observation
    then low_sample ∷ []
    else push_if (observation_has_drift_pressure observation) (delay_of standard_lane_pressure)
      ++ push_if (leb blocking_risk_avg_drift_ms observation.avg_drift_ms) (record {
        label = blocking_risk_suspected;
        confidence = confidence_for_observation observation;
        recommendations = check_blocking_work ∷ add_business_tracing ∷ [];
      })
      ++ push_if (observation_has_wake_storm observation) (record {
        label = wake_storm_suspected;
        confidence = medium;
        recommendations = add_business_tracing ∷ investigate_host_runtime ∷ [];
      })

unfoldable pub scheduling_from_lane : RuntimeLane → Option ServiceScheduling
scheduling_from_lane RuntimeLane.control = none
scheduling_from_lane RuntimeLane.standard = some ServiceScheduling.standard
scheduling_from_lane RuntimeLane.high_priority = some ServiceScheduling.high_priority
scheduling_from_lane RuntimeLane.isolated = some ServiceScheduling.isolated
