-- ===== src/Examples/Overlays.antt =====
-- The theorems on the overlay store at concrete inputs.
use service_daemon_rs.Examples.Instances.{
  fixed, counting, counting_laws, function_map, function_map_laws,
}
use service_daemon_rs.Prelude.{
  ℕ, ◌≡◌, ◌≢◌, ◌↔◌, refl, false, Option, none, some, List, [], ◌∷◌, ok, inl, arith, ◌+◌,
}
use service_daemon_rs.External.ServiceMap.{ServiceMap}
use service_daemon_rs.Policy.Scaling.{ScalingPolicy}
use service_daemon_rs.Policy.Scaling.Validity.{IsValid}
use service_daemon_rs.Policy.Restart.{RestartPolicy}
use service_daemon_rs.Policy.Overlay.{TriggerPolicyOverlay, is_whitespace}
use service_daemon_rs.Policy.Overlay.Shape.{IsWellShaped}
use service_daemon_rs.TriggerRunner.Gate.{Gate, takes}
use service_daemon_rs.OverlayStore.Record.{
  TriggerBasePolicy, TriggerPolicyOverlayRecord, reconcile, clear, accept, max_concurrency,
}
use service_daemon_rs.OverlayStore.Limits.{IsSound}
use service_daemon_rs.OverlayStore.Ops.{
  Op, registers, ends, requests, clears, reconciles, applies, dispatches, steps,
}
use service_daemon_rs.OverlayStore.Invariant.{IsSoundStore, steps-IsSoundStore}
use service_daemon_rs.OverlayStore.Requests.{Accepted, request_overlay-ok_iff}
use service_daemon_rs.OverlayStore.Lifecycle.{reconcile-clear-accept}
use service_daemon_rs.OverlayStore.Generations.{effective_policy-request, other_generation}
use service_daemon_rs.OverlayStore.{
  request_overlay, clear_overlay, effective_policy, reconcile_effective_concurrency,
  remove_trigger_generation,
}

abbrev Record : Type 0
Record = TriggerPolicyOverlayRecord fixed counting

abbrev policy : RestartPolicy ℕ
policy = record {
  initial_delay = 100;
  max_delay = 700;
  multiplier = 2_000_000_000;
  reset_after = 5000;
  jitter_factor = 0;
  wave_spawn_timeout = 500;
  provider_init_timeout = 500;
  wave_stop_timeout = 2000;
  trigger_max_retries = none;
}

abbrev scaling : ScalingPolicy
scaling = record {
  initial_concurrency = 2;
  max_concurrency = 8;
  scale_factor = 2;
  scale_threshold = 5;
  scale_cooldown = 30;
}

abbrev base : TriggerBasePolicy fixed counting
base = record { restart_policy = policy; scaling = some scaling }

valid : IsValid scaling
valid = record {
  initial_positive = omega arith;
  initial_within = omega arith;
  factor_grows = omega arith;
  threshold_positive = omega arith;
}

abbrev fresh_gate : Gate counting
fresh_gate = record { semaphore = 2; current_limit = 2; held = 0 }

abbrev fresh : Record
fresh = record {
  base = base;
  generation = 3;
  gate = fresh_gate;
  overlay = none;
  restore_base_on_next_reconcile = false;
}

abbrev narrow : TriggerPolicyOverlay fixed
narrow = record {
  reason = 0x61 ∷ [];
  ttl = 30;
  concurrency_limit = some 5;
  dispatch_timeout = none;
  retry_policy = none;
}

abbrev timed : TriggerPolicyOverlay fixed
timed = record {
  reason = 0x62 ∷ [];
  ttl = 30;
  concurrency_limit = none;
  dispatch_timeout = some 7;
  retry_policy = none;
}

-- An overlay with limit 5 that expires at 30, after reconciling, with three dispatches at work.
abbrev widened : Record
widened = record {
  base = base;
  generation = 3;
  gate = record { semaphore = 2; current_limit = 5; held = 3 };
  overlay = some (record { overlay = narrow; expires_at = 30 });
  restore_base_on_next_reconcile = false;
}

widened-IsSound : IsSound fixed counting counting_laws widened
unfolding max_concurrency
widened-IsSound = record {
  base_valid = valid;
  balanced = refl;
  positive = omega arith;
  within = omega arith;
  overlay_within = (omega arith, omega arith);
}

fresh-IsSound : IsSound fixed counting counting_laws fresh
unfolding max_concurrency
fresh-IsSound = record {
  base_valid = valid;
  balanced = refl;
  positive = omega arith;
  within = omega arith;
  overlay_within = tt;
}

abbrev ops : List (Op fixed counting (function_map Record))
ops =
    registers 1 3 base fresh_gate
    ∷ requests 0 1 3 narrow
    ∷ applies 1 [] 1 3
    ∷ dispatches 1 (takes ∷ takes ∷ [])
    ∷ clears 1 3 (0x61 ∷ [])
    ∷ reconciles 2 [] 1 3 4
    ∷ ends 1 3
    ∷ []

steps-IsSoundStore_example :
    IsSoundStore fixed counting counting_laws
      (function_map Record)
      (function_map_laws Record)
      (steps fixed counting (function_map Record) (λ k. none) ops)
steps-IsSoundStore_example =
    steps-IsSoundStore fixed counting counting_laws (function_map Record) (function_map_laws Record)
      ops (fresh-IsSound, (tt, (tt, (tt, (tt, (tt, (tt, tt)))))))

reconcile-clear-accept_example :
    let r' = accept fixed counting (10 + timed.ttl) timed (clear fixed counting widened) in
    (reconcile fixed counting 12 [] r'.gate.current_limit r').gate.current_limit ≡ 5
reconcile-clear-accept_example =
    reconcile-clear-accept fixed counting counting_laws 10 12 timed widened widened-IsSound refl

abbrev Store : ServiceMap Record
Store = function_map Record

abbrev registered : ℕ → Option Record
registered = Store.insert (λ k. none) 1 fresh

abbrev asked : ℕ → Option Record
asked = Store.insert registered 1 (accept fixed counting (5 + narrow.ttl) narrow fresh)

request_overlay-ok_iff_example :
    (request_overlay fixed counting Store 5 registered 1 3 narrow ≡ ok asked)
    ↔ Accepted fixed counting Store 5 registered 1 3 narrow asked
request_overlay-ok_iff_example =
    request_overlay-ok_iff fixed counting Store 5 registered 1 3 narrow asked

well_shaped : IsWellShaped fixed narrow
well_shaped = record {
  reason_inked = unfold is_whitespace in refl;
  ttl_positive = omega arith;
  not_empty = inl refl;
  limit_positive = λ h. ground arith;
  timeout_positive = λ h. ground arith;
  retry_usable = tt;
}

is_accepted : request_overlay fixed counting Store 5 registered 1 3 narrow ≡ ok asked
unfolding max_concurrency
is_accepted =
    (request_overlay-ok_iff fixed counting Store 5 registered 1 3 narrow asked).1 (record {
      found = fresh;
      is_found = refl;
      well_shaped = well_shaped;
      allowed = omega arith;
      representable = omega arith;
      result = refl;
    })

effective_policy-request_example :
    (effective_policy fixed counting Store 20 asked 1 3 base).1
    ≡ record { restart_policy = policy; dispatch_timeout = none }
effective_policy-request_example =
    effective_policy-request fixed counting Store (function_map_laws Record) 5 20 registered asked 1
      3 narrow fresh base refl is_accepted

stale : 2 ≢ fresh.generation
stale h = omega (arith, h)

other_generation_example :
    ((m' : ℕ → Option Record)
      → request_overlay fixed counting Store 5 registered 1 2 narrow ≢ ok m')
    × ((m' : ℕ → Option Record)
        → clear_overlay fixed counting Store registered 1 2 (0x61 ∷ []) ≢ ok m')
    × (effective_policy fixed counting Store 5 registered 1 2 base
        ≡ (registered, record { restart_policy = policy; dispatch_timeout = none }))
    × (reconcile_effective_concurrency fixed counting Store 5 [] registered 1 2 4 ≡ (registered, 4))
    × ((j : ℕ)
        → Store.get (remove_trigger_generation fixed counting Store registered 1 2) j
          ≡ Store.get registered j)
other_generation_example =
    other_generation fixed counting Store (function_map_laws Record) 5 [] registered 1 2 4 fresh
      narrow (0x61 ∷ []) base refl stale
