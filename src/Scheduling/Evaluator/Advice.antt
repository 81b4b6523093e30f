-- ===== src/Scheduling/Evaluator/Advice.antt =====
-- What the evaluator recommends, and when it recommends nothing.
use service_daemon_rs.Prelude.{
  ℕ, ◌+◌, ◌*◌, ◌≤◌, ◌≡◌, ◌↔◌, refl, Bool, true, false, not, ◌&&◌, ◌||◌, some, List, [], ◌∷◌, ◌++◌,
  length, length-append, All, All-append, arith, if◌then◌else◌,
}
use service_daemon_rs.Diagnostics.{RuntimeLane}
use service_daemon_rs.Scheduling.Evaluator.{
  DiagnosticsWindow, RuntimeLaneWindow, GenerationDiagnosticsWindow, ServiceDiagnosticsWindow,
  SchedulingRecommendation, SchedulingPolicyThresholds, consider_isolation, is_standard,
  is_isolated, any, flat_map, observation_has_drift_pressure, lifecycle_has_instability,
  lifecycle_has_isolated_pressure, standard_lane_has_pressure, has_isolated_pressure, evaluate_lane,
  evaluate_generation, evaluate_service, evaluate,
}

flat_map-All {ℓ κ μ} :
    {A : Type ℓ} {B : Type κ} (P : B → Type μ) (f : A → List B) (xs : List A)
    → ((x : A) → All P (f x))
    → All P (flat_map f xs)
flat_map-All P f [] h = tt
flat_map-All P f (x ∷ xs) h = All-append P (f x) (flat_map f xs) (h x) (flat_map-All P f xs h)

length-flat_map-le {ℓ κ} :
    {A : Type ℓ} {B : Type κ} (n : ℕ) (f : A → List B) (xs : List A)
    → ((x : A) → length (f x) ≤ n)
    → length (flat_map f xs) ≤ n * length xs
length-flat_map-le n f [] h = grind arith
length-flat_map-le n f (x ∷ xs) h =
    grind (arith, length-append (f x) (flat_map f xs), h x, length-flat_map-le n f xs h)

if-All {ℓ μ} :
    {A : Type ℓ} (P : A → Type μ) (b : Bool) (xs : List A) → All P xs → All P (if b then [] else xs)
if-All P true xs h = tt
if-All P false xs h = h

length-if-le {ℓ} : {A : Type ℓ} (b : Bool) (xs : List A) → length (if b then [] else xs) ≤ length xs
length-if-le true xs = omega arith
length-if-le false xs = omega arith

module _ (th : SchedulingPolicyThresholds) where
  -- Isolation is advised only for a service of the standard lane with drift in its own sleeps and a
  -- stable lifecycle, while neither the standard lane nor the isolated services are pressed.
  abbrev pub IsJustified : DiagnosticsWindow → SchedulingRecommendation → Type 0
  IsJustified w r =
      r.action ≡ consider_isolation
      → (r.current_lane ≡ some RuntimeLane.standard)
        × (observation_has_drift_pressure th r.observation ≡ true)
        × (lifecycle_has_instability th r.lifecycle ≡ false)
        × (standard_lane_has_pressure th w ≡ false)
        × (has_isolated_pressure th w ≡ false)

  lane-IsJustified :
      (w : DiagnosticsWindow) (l : RuntimeLaneWindow) → All (IsJustified w) (evaluate_lane th l)
  unfolding evaluate_lane
  lane-IsJustified w l = ground arith

  generation-IsJustified :
      (w : DiagnosticsWindow) (g : GenerationDiagnosticsWindow)
      → All (IsJustified w) (evaluate_generation th g)
  unfolding evaluate_generation
  generation-IsJustified w g = ground arith

  service-IsJustified :
      (w : DiagnosticsWindow) (s : ServiceDiagnosticsWindow)
      → All
          (IsJustified w)
          (evaluate_service th (standard_lane_has_pressure th w) (has_isolated_pressure th w) s)
  unfolding evaluate_service
  service-IsJustified w s = ground arith

  -- Every recommendation of an evaluation that advises isolation is justified by the window: it is
  -- for a service of the standard lane with drift in its own sleeps and a stable lifecycle, and
  -- neither the standard lane nor the isolated services are pressed.
  pub evaluate-IsJustified : (w : DiagnosticsWindow) → All (IsJustified w) (evaluate th w)
  unfolding evaluate
  evaluate-IsJustified w =
      let j = IsJustified w in
      if-All j (not w.has_baseline) _ (
        All-append j (flat_map (evaluate_lane th) w.lanes ++ _) _
          (All-append j (flat_map (evaluate_lane th) w.lanes) _
            (flat_map-All j (evaluate_lane th) w.lanes (lane-IsJustified w))
            (flat_map-All j (evaluate_generation th) w.generations (generation-IsJustified w)))
          (flat_map-All j _ w.services (service-IsJustified w)))

  -- A lane, a generation or a service that the evaluator has something to say about.
  abbrev pub is_loud_lane : RuntimeLaneWindow → Bool
  is_loud_lane l =
      observation_has_drift_pressure th l.aggregate.runtime_probe
      || (is_isolated l.runtime_lane && lifecycle_has_isolated_pressure th l.aggregate.lifecycle)

  abbrev pub is_loud_generation : GenerationDiagnosticsWindow → Bool
  is_loud_generation g =
      lifecycle_has_instability th g.aggregate.lifecycle
      || (is_isolated g.runtime_lane && lifecycle_has_isolated_pressure th g.aggregate.lifecycle)

  abbrev pub is_loud_service : ServiceDiagnosticsWindow → Bool
  is_loud_service s =
      lifecycle_has_instability th s.aggregate.lifecycle
      || (is_standard s.runtime_lane && observation_has_drift_pressure th s.aggregate.service_sleep)

  abbrev pub is_loud : DiagnosticsWindow → Bool
  is_loud w =
      any is_loud_lane w.lanes
      || any is_loud_generation w.generations
      || any is_loud_service w.services

  abbrev is_empty_list : List SchedulingRecommendation → Bool
  is_empty_list [] = true
  is_empty_list (r ∷ rs) = false

  empty-append :
      (xs ys : List SchedulingRecommendation)
      → is_empty_list (xs ++ ys) ≡ is_empty_list xs && is_empty_list ys
  empty-append [] ys = refl
  empty-append (x ∷ xs) ys = refl

  empty-flat_map {ℓ} :
      {A : Type ℓ} (p : A → Bool) (f : A → List SchedulingRecommendation) (xs : List A)
      → ((x : A) → is_empty_list (f x) ≡ not (p x))
      → is_empty_list (flat_map f xs) ≡ not (any p xs)
  empty-flat_map p f [] h = refl
  empty-flat_map p f (x ∷ xs) h =
      ground (arith, empty-append (f x) (flat_map f xs), h x, empty-flat_map p f xs h)

  lane_silent : (l : RuntimeLaneWindow) → is_empty_list (evaluate_lane th l) ≡ not (is_loud_lane l)
  unfolding evaluate_lane
  lane_silent l = ground arith

  generation_silent :
      (g : GenerationDiagnosticsWindow)
      → is_empty_list (evaluate_generation th g) ≡ not (is_loud_generation g)
  unfolding evaluate_generation
  generation_silent g = ground arith

  service_silent :
      (a b : Bool) (s : ServiceDiagnosticsWindow)
      → is_empty_list (evaluate_service th a b s) ≡ not (is_loud_service s)
  unfolding evaluate_service
  service_silent a b s = ground arith

  evaluate_empty :
      (w : DiagnosticsWindow) → is_empty_list (evaluate th w) ≡ not (w.has_baseline && is_loud w)
  unfolding evaluate
  evaluate_empty w =
      let lanes = flat_map (evaluate_lane th) w.lanes in
      let generations = flat_map (evaluate_generation th) w.generations in
      let services =
        flat_map
          (evaluate_service th (standard_lane_has_pressure th w) (has_isolated_pressure th w))
          w.services in
      ground (
        arith,
        empty-append (lanes ++ generations) services,
        empty-append lanes generations,
        empty-flat_map is_loud_lane (evaluate_lane th) w.lanes lane_silent,
        empty-flat_map is_loud_generation (evaluate_generation th) w.generations generation_silent,
        empty-flat_map is_loud_service
            (evaluate_service th (standard_lane_has_pressure th w) (has_isolated_pressure th w))
            w.services
            (service_silent (standard_lane_has_pressure th w) (has_isolated_pressure th w)),
      )

  empty_iff : (rs : List SchedulingRecommendation) → (rs ≡ []) ↔ (is_empty_list rs ≡ true)
  empty_iff [] = (λ h. refl, λ h. refl)
  empty_iff (r ∷ rs) = ground arith

  -- The evaluator recommends nothing exactly when there is no earlier snapshot to compare with or no
  -- lane, generation or service of the window shows pressure or instability.
  pub evaluate_silent_iff :
      (w : DiagnosticsWindow) → (evaluate th w ≡ []) ↔ ((w.has_baseline && is_loud w) ≡ false)
  evaluate_silent_iff w = ground (arith, evaluate_empty w, empty_iff (evaluate th w))

  length-lane-le : (l : RuntimeLaneWindow) → length (evaluate_lane th l) ≤ 2
  unfolding evaluate_lane
  length-lane-le l = ground arith

  length-generation-le : (g : GenerationDiagnosticsWindow) → length (evaluate_generation th g) ≤ 1
  unfolding evaluate_generation
  length-generation-le g = ground arith

  length-service-le :
      (a b : Bool) (s : ServiceDiagnosticsWindow) → length (evaluate_service th a b s) ≤ 1
  unfolding evaluate_service
  length-service-le a b s = ground arith

  -- An evaluation makes at most two recommendations for a lane and one for a generation or a service.
  pub length-evaluate-le :
      (w : DiagnosticsWindow)
      → length (evaluate th w) ≤ 2 * length w.lanes + (length w.generations + length w.services)
  unfolding evaluate
  length-evaluate-le w =
      let lanes = flat_map (evaluate_lane th) w.lanes in
      let generations = flat_map (evaluate_generation th) w.generations in
      let services =
        flat_map
          (evaluate_service th (standard_lane_has_pressure th w) (has_isolated_pressure th w))
          w.services in
      ground (
        arith,
        length-if-le (not w.has_baseline) ((lanes ++ generations) ++ services),
        length-append (lanes ++ generations) services,
        length-append lanes generations,
        length-flat_map-le 2 (evaluate_lane th) w.lanes length-lane-le,
        length-flat_map-le 1 (evaluate_generation th) w.generations length-generation-le,
        length-flat_map-le 1
            (evaluate_service th (standard_lane_has_pressure th w) (has_isolated_pressure th w))
            w.services
            (length-service-le (standard_lane_has_pressure th w) (has_isolated_pressure th w)),
      )
