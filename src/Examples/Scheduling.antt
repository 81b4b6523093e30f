-- ===== src/Examples/Scheduling.antt =====
-- The theorems on adaptive scheduling at concrete inputs.
use service_daemon_rs.Prelude.{◌≡◌, refl, true, false, none, some, [], ◌∷◌, All, arith}
use service_daemon_rs.Diagnostics.{RuntimeLane, no_stats}
use service_daemon_rs.Scheduling.Observation.{
  SleepExitReason, ObservationStats, Observed, observe, observe_all, snapshot,
}
use service_daemon_rs.Scheduling.Window.{
  ObservationWindow, observation_window, lifecycle_window, DiagnosticsAggregateWindow,
}
use service_daemon_rs.Scheduling.Window.Counts.{observation_window_counts}
use service_daemon_rs.Interpretation.{service_interpretations}
use service_daemon_rs.Interpretation.Agreement.{
  labels_agree, labelled, reasoned_of_services, advised_of_services, first_window, aggregate_of,
  is_instability_label, is_delay_label, is_local_label, is_instability_reason, is_drift_reason,
  is_isolation,
}
use service_daemon_rs.Scheduling.Evaluator.{
  standard_lane_has_pressure, has_isolated_pressure, DiagnosticsWindow, default_thresholds,
  evaluate,
}
use service_daemon_rs.Scheduling.Evaluator.Advice.{IsJustified, evaluate-IsJustified}

abbrev no_observations : ObservationStats
no_observations = record {
  completed = 0;
  interrupted = 0;
  total_requested_ns = 0;
  total_elapsed_ns = 0;
  total_drift_ns = 0;
  max_drift_ns = 0;
  last_drift_ns = 0;
}

abbrev late : Observed
late = record {
  reason = SleepExitReason.completed;
  requested = 5_000_000;
  elapsed = 8_000_000;
  drift = 3_000_000;
}

abbrev stopped : Observed
stopped = record {
  reason = SleepExitReason.shutdown;
  requested = 5_000_000;
  elapsed = 1_000_000;
  drift = 0;
}

observation_window_counts_example :
    let w =
      observation_window
        (some (snapshot no_observations))
        (snapshot (observe_all no_observations (late ∷ stopped ∷ []))) in
    (w.completed ≡ 1) × (w.interrupted ≡ 1)
observation_window_counts_example =
    observation_window_counts no_observations (late ∷ stopped ∷ []) (omega arith) (omega arith)

is_proven :
    (observation_window
      (some (snapshot no_observations))
      (snapshot (observe_all no_observations (late ∷ stopped ∷ [])))).proven_max_drift_ms
    ≡ some 3
unfolding observation_window snapshot observe observe_all
is_proven = refl

abbrev slow : ObservationWindow
slow = record {
  completed = 4;
  interrupted = 0;
  total_requested_ms = 1000;
  total_elapsed_ms = 1800;
  total_drift_ms = 800;
  proven_max_drift_ms = none;
  last_drift_ms = 200;
  avg_drift_ms = 200;
}

abbrev calm : ObservationWindow
calm = record slow { total_drift_ms = 0; last_drift_ms = 0; avg_drift_ms = 0 }

abbrev aggregate : ObservationWindow → ObservationWindow → DiagnosticsAggregateWindow
aggregate sleep probe = record {
  service_sleep = sleep;
  runtime_probe = probe;
  lifecycle = lifecycle_window none no_stats;
}

abbrev window : DiagnosticsWindow
window = record {
  has_baseline = true;
  services =
      record {
        service_id = 1;
        service_name = 0x61 ∷ [];
        current_generation = 2;
        runtime_lane = RuntimeLane.standard;
        aggregate = aggregate slow calm;
      }
      ∷ [];
  generations = [];
  lanes = record { runtime_lane = RuntimeLane.standard; aggregate = aggregate calm calm } ∷ [];
}

evaluate-IsJustified_example :
    All (IsJustified default_thresholds window) (evaluate default_thresholds window)
evaluate-IsJustified_example = evaluate-IsJustified default_thresholds window

-- A window with one service, which is new and has slept once.
abbrev new_service : DiagnosticsWindow
new_service = record {
  has_baseline = true;
  services =
      first_window 1 [] 1 (aggregate_of (observe no_observations late) no_observations no_stats)
      ∷ [];
  generations = [];
  lanes = [];
}

labels_agree_example :
    let labels =
      service_interpretations RuntimeLane.standard
        (aggregate_of (observe no_observations late) no_observations no_stats)
        (standard_lane_has_pressure default_thresholds new_service) in
    let advice = evaluate default_thresholds new_service in
    (true ≡ true
      → (labelled is_instability_label labels ≡ reasoned_of_services is_instability_reason advice)
        × (labelled is_delay_label labels ≡ reasoned_of_services is_drift_reason advice)
        × (has_isolated_pressure default_thresholds new_service ≡ false
            → labelled is_local_label labels ≡ advised_of_services is_isolation advice))
    × (true ≡ false → advice ≡ [])
labels_agree_example =
    labels_agree 1 [] 1 (observe no_observations late) no_observations no_stats new_service refl
