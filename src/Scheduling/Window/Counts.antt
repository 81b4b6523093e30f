-- ===== src/Scheduling/Window/Counts.antt =====
-- A window counts what was observed between its two snapshots.
use service_daemon_rs.Prelude.{
  ℕ, max, ◌+◌, ◌^◌, ◌<◌, ◌≡◌, suc, some, List, [], ◌∷◌, length, arith, if◌then◌else◌,
}
use service_daemon_rs.Scheduling.Observation.{
  duration_nanos, nanos_to_millis, ObservationStats, Observed, is_completed, observe, observe_all,
  snapshot,
}
use service_daemon_rs.Scheduling.Window.{observation_window}

abbrev pub count_completed : List Observed → ℕ
count_completed [] = 0
count_completed (o ∷ os) =
    let rest = count_completed os in if is_completed o.reason then suc rest else rest

abbrev pub count_interrupted : List Observed → ℕ
count_interrupted [] = 0
count_interrupted (o ∷ os) =
    let rest = count_interrupted os in if is_completed o.reason then rest else suc rest

-- The greatest drift of the completed sleeps.
abbrev pub greatest_drift : List Observed → ℕ
greatest_drift [] = 0
greatest_drift (o ∷ os) =
    let rest = greatest_drift os in
    if is_completed o.reason then max (duration_nanos o.drift) rest else rest

observe-counts :
    (s : ObservationStats) (o : Observed)
    → s.completed + 1 < 2 ^ 64
    → s.interrupted + 1 < 2 ^ 64
    → ((observe s o).completed ≡ s.completed + count_completed (o ∷ []))
      × ((observe s o).interrupted ≡ s.interrupted + count_interrupted (o ∷ []))
unfolding observe
observe-counts s o h k = ground arith

observe-max :
    (s : ObservationStats) (o : Observed)
    → (observe s o).max_drift_ns ≡ max s.max_drift_ns (greatest_drift (o ∷ []))
unfolding observe
observe-max s o = ground arith

observe_all-max :
    (s : ObservationStats) (os : List Observed)
    → (observe_all s os).max_drift_ns ≡ max s.max_drift_ns (greatest_drift os)
unfolding observe_all
observe_all-max s [] = omega arith
observe_all-max s (o ∷ os) = ground (arith, observe-max s o, observe_all-max (observe s o) os)

observe_all-counts :
    (s : ObservationStats) (os : List Observed)
    → s.completed + length os < 2 ^ 64
    → s.interrupted + length os < 2 ^ 64
    → ((observe_all s os).completed ≡ s.completed + count_completed os)
      × ((observe_all s os).interrupted ≡ s.interrupted + count_interrupted os)
unfolding observe_all
observe_all-counts s [] h k = (omega arith, omega arith)
observe_all-counts s (o ∷ os) h k =
    let one = observe-counts s o (omega arith) (omega arith) in
    ground
      (arith, one, observe_all-counts (observe s o) os (ground (arith, one)) (ground (arith, one)))

-- A window between two snapshots counts the observations between them, while no counter wraps.
pub observation_window_counts :
    (s : ObservationStats) (os : List Observed)
    → s.completed + length os < 2 ^ 64
    → s.interrupted + length os < 2 ^ 64
    → let w = observation_window (some (snapshot s)) (snapshot (observe_all s os)) in
      (w.completed ≡ count_completed os) × (w.interrupted ≡ count_interrupted os)
unfolding observation_window snapshot
observation_window_counts s os h k = omega (arith, observe_all-counts s os h k)

-- The greatest drift that a window claims as proven is the
-- greatest of the completed sleeps between its snapshots.
pub observation_window_proven :
    (s : ObservationStats) (os : List Observed) (m : ℕ)
    → let w = observation_window (some (snapshot s)) (snapshot (observe_all s os)) in
      w.proven_max_drift_ms ≡ some m → m ≡ nanos_to_millis (greatest_drift os)
unfolding observation_window snapshot
observation_window_proven s os m h = ground (arith, observe_all-max s os)
