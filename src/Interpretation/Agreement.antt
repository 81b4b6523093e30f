-- ===== src/Interpretation/Agreement.antt =====
-- The labels of a public snapshot and the advice of the scheduling evaluator on the same counts.
use native.Mathlib.Nat.{div-div-eq-div-mul, mul_comm}
use service_daemon_rs.Prelude.{
  ◌++◌, [], ◌∷◌, if◌then◌else◌, ℕ, ◌/◌, ◌≡◌, refl, ap, sym, ◌∙◌, Bool, true, false, not, ◌&&◌, ◌||◌,
  none, some, List, arith, ◌==◌, Bool-cases, inl, inr, ◌↔◌,
}
use service_daemon_rs.Diagnostics.{RuntimeLane, ServiceScheduling, LifecycleStats, lane_from}
use service_daemon_rs.Scheduling.Observation.{ObservationStats, snapshot}
use service_daemon_rs.Scheduling.Window.{
  observation_window, lifecycle_window, aggregate_window, DiagnosticsAggregateSnapshot,
}
use service_daemon_rs.Scheduling.Evaluator
use service_daemon_rs.Scheduling.Evaluator.{
  SchedulingRecommendation, SchedulingRecommendationAction, SchedulingRecommendationReason,
  ServiceDiagnosticsWindow, any, default_thresholds, evaluate_service, evaluate, evaluate_lane,
  evaluate_generation, flat_map, DiagnosticsWindow, RuntimeLaneWindow, GenerationDiagnosticsWindow,
  has_isolated_pressure, SchedulingRecommendationTarget,
}
use service_daemon_rs.Interpretation.{
  observation_has_drift_pressure, observation_is_low_sample, lifecycle_has_instability,
  service_interpretations, scheduling_from_lane, DiagnosticInterpretation,
  DiagnosticInterpretationLabel,
}

-- Dividing twice does not depend on the order.
div_swap : (n a b : ℕ) → n / a / b ≡ n / b / a
div_swap n a b =
    div-div-eq-div-mul n a b ∙ ap (λ x. n / x) (mul_comm a b) ∙ sym (div-div-eq-div-mul n b a)

-- The average of the milliseconds is the average in milliseconds.
average_lem :
    (s : ObservationStats)
    → (observation_window none (snapshot s)).avg_drift_ms ≡ (snapshot s).avg_drift_ms
unfolding observation_window snapshot
average_lem s = elim (Bool-cases (s.completed == 0)) [
  | inl idle ↦ ground (arith, idle)
  | inr some_completed ↦ rw some_completed (div_swap s.total_drift_ns 1_000_000 s.completed)
]

completed_lem :
    (s : ObservationStats)
    → (observation_window none (snapshot s)).completed ≡ (snapshot s).completed
unfolding observation_window
completed_lem s = refl

same_drift :
    (s : ObservationStats)
    → Evaluator.observation_has_drift_pressure Evaluator.default_thresholds
        (observation_window none (snapshot s))
      ≡ observation_has_drift_pressure (snapshot s)
unfolding observation_has_drift_pressure observation_is_low_sample
    Evaluator.observation_has_drift_pressure
same_drift s = ground (arith, average_lem s, completed_lem s)

same_instability :
    (l : LifecycleStats)
    → Evaluator.lifecycle_has_instability Evaluator.default_thresholds (lifecycle_window none l)
      ≡ lifecycle_has_instability l
unfolding lifecycle_has_instability Evaluator.lifecycle_has_instability lifecycle_window
same_instability l = refl

-- Tests on a label, a reason and an action.
abbrev pub is_instability_label : DiagnosticInterpretationLabel → Bool
is_instability_label DiagnosticInterpretationLabel.lifecycle_instability = true
is_instability_label label = false

abbrev pub is_local_label : DiagnosticInterpretationLabel → Bool
is_local_label DiagnosticInterpretationLabel.service_local_wake_delay_suspected = true
is_local_label label = false

abbrev pub is_delay_label : DiagnosticInterpretationLabel → Bool
is_delay_label DiagnosticInterpretationLabel.service_local_wake_delay_suspected = true
is_delay_label DiagnosticInterpretationLabel.service_impacted_by_lane_pressure = true
is_delay_label label = false

abbrev pub is_instability_reason : SchedulingRecommendationReason → Bool
is_instability_reason SchedulingRecommendationReason.lifecycle_instability = true
is_instability_reason reason = false

abbrev pub is_drift_reason : SchedulingRecommendationReason → Bool
is_drift_reason SchedulingRecommendationReason.standard_service_sleep_drift = true
is_drift_reason reason = false

abbrev pub is_isolation : SchedulingRecommendationAction → Bool
is_isolation SchedulingRecommendationAction.consider_isolation = true
is_isolation action = false

abbrev pub labelled : (DiagnosticInterpretationLabel → Bool) → List DiagnosticInterpretation → Bool
labelled p list = any (λ i. p i.label) list

abbrev pub reasoned : (SchedulingRecommendationReason → Bool) → List SchedulingRecommendation → Bool
reasoned p list = any (λ r. p r.reason) list

abbrev pub advised : (SchedulingRecommendationAction → Bool) → List SchedulingRecommendation → Bool
advised p list = any (λ r. p r.action) list

-- A standard service with the window that its first snapshot gives.
abbrev pub first_window : ℕ → List ℕ → ℕ → DiagnosticsAggregateSnapshot → ServiceDiagnosticsWindow
first_window id name generation aggregate = record {
  service_id = id;
  service_name = name;
  current_generation = generation;
  runtime_lane = RuntimeLane.standard;
  aggregate = aggregate_window none aggregate;
}

abbrev pub aggregate_of :
    ObservationStats → ObservationStats → LifecycleStats → DiagnosticsAggregateSnapshot
aggregate_of sleeps probes lifecycle = record {
  service_sleep = snapshot sleeps;
  runtime_probe = snapshot probes;
  lifecycle = lifecycle;
}

-- The labels, from the tests.
labels_lem :
    (aggregate : DiagnosticsAggregateSnapshot) (pressed : Bool)
    → (labelled is_instability_label
          (service_interpretations RuntimeLane.standard aggregate pressed)
        ≡ lifecycle_has_instability aggregate.lifecycle)
      × (labelled is_delay_label (service_interpretations RuntimeLane.standard aggregate pressed)
          ≡ (not (lifecycle_has_instability aggregate.lifecycle)
              && observation_has_drift_pressure aggregate.service_sleep))
      × (labelled is_local_label (service_interpretations RuntimeLane.standard aggregate pressed)
          ≡ (not (lifecycle_has_instability aggregate.lifecycle)
              && observation_has_drift_pressure aggregate.service_sleep
              && not pressed))
unfolding service_interpretations observation_has_drift_pressure
labels_lem aggregate true = (ground arith, ground arith, ground arith)
labels_lem aggregate false = (ground arith, ground arith, ground arith)

-- The advice, from the tests.
advice_lem :
    (w : ServiceDiagnosticsWindow) (pressed isolated : Bool)
    → w.runtime_lane ≡ RuntimeLane.standard
    → (reasoned is_instability_reason (evaluate_service default_thresholds pressed isolated w)
        ≡ Evaluator.lifecycle_has_instability default_thresholds w.aggregate.lifecycle)
      × (reasoned is_drift_reason (evaluate_service default_thresholds pressed isolated w) ≡ (
          not (Evaluator.lifecycle_has_instability default_thresholds w.aggregate.lifecycle)
          && Evaluator.observation_has_drift_pressure default_thresholds w.aggregate.service_sleep))
      × (advised is_isolation (evaluate_service default_thresholds pressed isolated w) ≡ (
          not (Evaluator.lifecycle_has_instability default_thresholds w.aggregate.lifecycle)
          && Evaluator.observation_has_drift_pressure default_thresholds w.aggregate.service_sleep
          && not (pressed || isolated)))
unfolding evaluate_service
advice_lem w pressed isolated h = (ground (arith, h), ground (arith, h), ground (arith, h))

-- A recommendation on a service that passes a test.
abbrev pub on_a_service : SchedulingRecommendationTarget → Bool
on_a_service (SchedulingRecommendationTarget.service id name generation) = true
on_a_service target = false

abbrev pub reasoned_of_services :
    (SchedulingRecommendationReason → Bool) → List SchedulingRecommendation → Bool
reasoned_of_services p list = any (λ r. on_a_service r.target && p r.reason) list

abbrev pub advised_of_services :
    (SchedulingRecommendationAction → Bool) → List SchedulingRecommendation → Bool
advised_of_services p list = any (λ r. on_a_service r.target && p r.action) list

any-append :
    (p : SchedulingRecommendation → Bool) (xs ys : List SchedulingRecommendation)
    → any p (xs ++ ys) ≡ (any p xs || any p ys)
any-append p [] ys = refl
any-append p (x ∷ xs) ys = ground (arith, any-append p xs ys)

-- Nothing on a lane or on a generation is on a service.
lanes_apart :
    (p : SchedulingRecommendation → Bool) (lanes : List RuntimeLaneWindow)
    → any (λ r. on_a_service r.target && p r) (flat_map (evaluate_lane default_thresholds) lanes)
      ≡ false
unfolding evaluate_lane
lanes_apart p [] = refl
lanes_apart p (l ∷ ls) =
    any-append (λ r. on_a_service r.target && p r) (evaluate_lane default_thresholds l) _
    ∙ ground (arith, lanes_apart p ls)

generations_apart :
    (p : SchedulingRecommendation → Bool) (generations : List GenerationDiagnosticsWindow)
    → any
        (λ r. on_a_service r.target && p r)
        (flat_map (evaluate_generation default_thresholds) generations)
      ≡ false
unfolding evaluate_generation
generations_apart p [] = refl
generations_apart p (g ∷ gs) =
    any-append (λ r. on_a_service r.target && p r) (evaluate_generation default_thresholds g) _
    ∙ ground (arith, generations_apart p gs)

services_are :
    (p : SchedulingRecommendation → Bool) (lane_pressed isolated_pressed : Bool)
    (s : ServiceDiagnosticsWindow)
    → any
        (λ r. on_a_service r.target && p r)
        (evaluate_service default_thresholds lane_pressed isolated_pressed s)
      ≡ any p (evaluate_service default_thresholds lane_pressed isolated_pressed s)
unfolding evaluate_service
services_are p lane_pressed isolated_pressed s = ground arith

-- In a window with one service, what is said of services is what is said of that one.
only_service :
    (p : SchedulingRecommendation → Bool) (w : DiagnosticsWindow) (s : ServiceDiagnosticsWindow)
    → w.has_baseline ≡ true
    → w.services ≡ s ∷ []
    → any (λ r. on_a_service r.target && p r) (evaluate default_thresholds w)
      ≡ any p (
          evaluate_service default_thresholds
            (Evaluator.standard_lane_has_pressure default_thresholds w)
            (has_isolated_pressure default_thresholds w)
            s)
unfolding evaluate
only_service p w s baseline one =
    let q : SchedulingRecommendation → Bool = λ r. on_a_service r.target && p r in
    let on_lanes = flat_map (evaluate_lane default_thresholds) w.lanes in
    let on_generations = flat_map (evaluate_generation default_thresholds) w.generations in
    let on_one =
      evaluate_service default_thresholds
        (Evaluator.standard_lane_has_pressure default_thresholds w)
        (has_isolated_pressure default_thresholds w) in
    ap
      (λ (b : Bool).
        any q (if not b then [] else on_lanes ++ on_generations ++ flat_map on_one w.services))
      baseline
    ∙ ap
        (λ (l : List ServiceDiagnosticsWindow).
          any q (on_lanes ++ on_generations ++ flat_map on_one l))
        one
    ∙ any-append q (on_lanes ++ on_generations) (flat_map on_one (s ∷ []))
    ∙ ground (
      arith,
      lanes_apart p w.lanes,
      generations_apart p w.generations,
      any-append q on_lanes on_generations,
      any-append q (on_one s) [],
      services_are p (Evaluator.standard_lane_has_pressure default_thresholds w)
          (has_isolated_pressure default_thresholds w) s,
    )

-- A service of the standard lane that is new in a window with a baseline gets the same verdict from
-- its public labels and from the evaluator with the default thresholds, where it is the window's
-- only service and its labels know of the pressure on the lane what the evaluator finds: the labels say that the lifecycle is unstable when the evaluator does, and that the
-- wakeups are late when it does; and where no isolated resources are under pressure, the delay is
-- called the service's own just when isolation is to be considered. A window without a baseline
-- gets no advice.
pub labels_agree :
    (id : ℕ) (name : List ℕ) (generation : ℕ) (sleeps probes : ObservationStats)
    (lifecycle : LifecycleStats) (w : DiagnosticsWindow)
    → w.services ≡ first_window id name generation (aggregate_of sleeps probes lifecycle) ∷ []
    → let labels =
        service_interpretations RuntimeLane.standard
          (aggregate_of sleeps probes lifecycle)
          (Evaluator.standard_lane_has_pressure default_thresholds w) in
      let advice = evaluate default_thresholds w in
      (w.has_baseline ≡ true
        → (labelled is_instability_label labels ≡ reasoned_of_services is_instability_reason advice)
          × (labelled is_delay_label labels ≡ reasoned_of_services is_drift_reason advice)
          × (has_isolated_pressure default_thresholds w ≡ false
              → labelled is_local_label labels ≡ advised_of_services is_isolation advice))
      × (w.has_baseline ≡ false → advice ≡ [])
unfolding aggregate_window evaluate
labels_agree id name generation sleeps probes lifecycle w one =
    let aggregate = aggregate_of sleeps probes lifecycle in
    let s = first_window id name generation aggregate in
    let lane_pressed = Evaluator.standard_lane_has_pressure default_thresholds w in
    let isolated_pressed = has_isolated_pressure default_thresholds w in
    let labels = labels_lem aggregate lane_pressed in
    let advice = advice_lem s lane_pressed isolated_pressed refl in
    let drift = same_drift sleeps in
    let unstable = same_instability lifecycle in
    (
      λ b. (
        labels.0
            ∙ sym unstable
            ∙ sym advice.0
            ∙ sym (only_service (λ r. is_instability_reason r.reason) w s b one),
        labels.1
            ∙ ground (arith, drift, unstable)
            ∙ sym advice.1
            ∙ sym (only_service (λ r. is_drift_reason r.reason) w s b one),
        λ calm.
            labels.2
            ∙ ground (arith, drift, unstable, calm)
            ∙ sym advice.2
            ∙ sym (only_service (λ r. is_isolation r.action) w s b one),
      ),
      λ b. rw b refl,
    )

some_eq : {a b : ServiceScheduling} → some a ≡ some b → a ≡ b
some_eq h = ground (arith, h)

lane_of :
    (lane : RuntimeLane) (declared : ServiceScheduling)
    → scheduling_from_lane lane ≡ some declared
    → lane ≡ lane_from declared
unfolding scheduling_from_lane lane_from
lane_of RuntimeLane.control declared h = cc
lane_of RuntimeLane.standard declared h = rw (← some_eq h) refl
lane_of RuntimeLane.high_priority declared h = rw (← some_eq h) refl
lane_of RuntimeLane.isolated declared h = rw (← some_eq h) refl

-- The scheduling that a service declares is what its snapshots show: the lane that is made of it tells
-- it, and no lane tells another.
pub scheduling_from_lane-lane_from :
    (declared : ServiceScheduling) (lane : RuntimeLane)
    → (scheduling_from_lane lane ≡ some declared) ↔ (lane ≡ lane_from declared)
unfolding scheduling_from_lane lane_from
scheduling_from_lane-lane_from ServiceScheduling.standard lane =
    (lane_of lane ServiceScheduling.standard, λ e. rw e refl)
scheduling_from_lane-lane_from ServiceScheduling.high_priority lane =
    (lane_of lane ServiceScheduling.high_priority, λ e. rw e refl)
scheduling_from_lane-lane_from ServiceScheduling.isolated lane =
    (lane_of lane ServiceScheduling.isolated, λ e. rw e refl)
