-- ===== src/Examples/Triggers.antt =====
-- The theorems on the scale monitor at concrete inputs.
use service_daemon_rs.Examples.Instances.{
  fixed, counting, counting_laws, function_map, function_map_laws,
}
use service_daemon_rs.External.ServiceMap.{ServiceMap, Laws}
use service_daemon_rs.Policy.Restart.{RestartPolicy}
use service_daemon_rs.OverlayStore.Record.{
  TriggerPolicyOverlayRecord, max_concurrency, initial_concurrency, reconcile,
  reconcile_concurrency_limit, take_expired_overlay,
}
use service_daemon_rs.OverlayStore.{effective_concurrency_limit, reconcile_effective_concurrency}
use service_daemon_rs.OverlayStore.Ops.{clears}
use service_daemon_rs.OverlayStore.Limits
use service_daemon_rs.OverlayStore.Invariant.{insert-AllSound}
use service_daemon_rs.TriggerRunner.Scaling.Monitor.{
  Runner, Monitor, base_target, tick_alone, tick_store, on_tick, on_between, tick, acts, calls,
  between, between_all, Round, round, rounds,
}
use service_daemon_rs.TriggerRunner.Scaling.Policies.{some_eq}
use service_daemon_rs.TriggerRunner.Scaling.Gates.{IsSound, Fits}
use service_daemon_rs.Prelude.{
  Option, some, List, ap, sym, false, ℕ, ◌+◌, ◌≤◌, ◌≡◌, refl, none, [], ◌∷◌, arith,
}
use service_daemon_rs.Policy.Scaling.{ScalingPolicy}
use service_daemon_rs.TriggerRunner.Gate.{Gate, act, act_all, grow, takes, drops}
use service_daemon_rs.TriggerRunner.Scaling.{
  pressure_limit_for, next_scaled_limit, scale_up_target, scale_down_target,
}
use service_daemon_rs.TriggerRunner.Scaling.Rounds.{MonitorIsSound, rounds-IsSound}
use service_daemon_rs.TriggerRunner.Scaling.Saturation.{AllBusy, rounds_busy}

abbrev policy : ScalingPolicy
policy = record {
  initial_concurrency = 1;
  max_concurrency = 12;
  scale_factor = 3;
  scale_threshold = 5;
  scale_cooldown = 30;
}

abbrev gate : ℕ → ℕ → Gate counting
gate free used = record { semaphore = free; current_limit = free + used; held = used }

fits : Fits counting counting_laws policy
fits = record { valid = omega arith; max_fits = omega arith; threshold_fits = omega arith }

abbrev Record : Type 0
Record = TriggerPolicyOverlayRecord fixed counting

abbrev Store : ServiceMap Record
Store = function_map Record

abbrev Store_laws : Laws Store
Store_laws = function_map_laws Record

abbrev retry_policy : RestartPolicy ℕ
retry_policy = record {
  initial_delay = 100;
  max_delay = 700;
  multiplier = 2_000_000_000;
  reset_after = 5000;
  jitter_factor = 0;
  wave_spawn_timeout = 500;
  provider_init_timeout = 500;
  wave_stop_timeout = 2000;
  trigger_max_retries = none;
}

abbrev runner : Runner
runner = record { service_id = 1; generation = 3; scaling = policy }

abbrev registered : ℕ → ℕ → Record
registered free used = record {
  base = record { restart_policy = retry_policy; scaling = some policy };
  generation = 3;
  gate = gate free used;
  overlay = none;
  restore_base_on_next_reconcile = false;
}

abbrev stored : ℕ → ℕ → ℕ → Option Record
stored free used = Store.insert (λ k. none) 1 (registered free used)

abbrev watched : ℕ → ℕ → Monitor fixed counting Store
watched free used = record {
  gate = gate free used;
  policy_overlays = some (stored free used);
  idle_since = none;
}

abbrev fills : ℕ → Round fixed counting Store
fills now = (now, acts (takes ∷ takes ∷ takes ∷ takes ∷ takes ∷ takes ∷ takes ∷ []) ∷ [], [])

abbrev filled : List (Round fixed counting Store)
filled = fills 1 ∷ fills 2 ∷ []

-- The second round follows a call that clears the overlay.
abbrev busy_and_idle : List (Round fixed counting Store)
busy_and_idle =
    fills 1
    ∷ (2, acts (takes ∷ []) ∷ calls (clears 1 3 (0x72 ∷ [])) ∷ [], [])
    ∷ (90, acts (drops ∷ []) ∷ [], [])
    ∷ []

sound : (n k : ℕ) → 1 ≤ n + k → n + k ≤ 12 → IsSound counting counting_laws policy (gate n k)
sound n k h m = record { balanced = refl; positive = h; within = m }

registered-IsSound :
    (n k : ℕ)
    → 1 ≤ n + k
    → n + k ≤ 12
    → Limits.IsSound fixed counting counting_laws (registered n k)
unfolding max_concurrency
registered-IsSound n k h m = record {
  base_valid = fits.valid;
  balanced = refl;
  positive = h;
  within = m;
  overlay_within = tt;
}

watched-MonitorIsSound :
    (n k : ℕ)
    → 1 ≤ n + k
    → n + k ≤ 12
    → MonitorIsSound fixed counting counting_laws Store Store_laws runner (watched n k)
watched-MonitorIsSound n k h m = record {
  gate_sound = sound n k h m;
  store_sound = (
    insert-AllSound fixed counting counting_laws Store Store_laws (λ j. none) 1 (registered n k)
        (λ j r e. cc e) (registered-IsSound n k h m),
    λ r e.
        ap (λ (x : Record). x.base.scaling)
          (some_eq fixed counting Store Store_laws runner (sym e)),
  );
}

rounds-IsSound_example :
    MonitorIsSound fixed counting counting_laws Store Store_laws runner
      (rounds fixed counting Store runner (watched 1 0) busy_and_idle)
rounds-IsSound_example =
    rounds-IsSound fixed counting counting_laws Store Store_laws runner (watched 1 0) busy_and_idle
      fits ((tt, tt), ((tt, ((tt, tt), tt)), ((tt, tt), tt)))
      (watched-MonitorIsSound 1 0 (omega arith) (omega arith))

busy : AllBusy fixed counting counting_laws Store Store_laws runner (watched 0 1) filled
unfolding round tick on_tick tick_alone tick_store base_target between_all between on_between
    scale_up_target scale_down_target next_scaled_limit pressure_limit_for grow act act_all
    effective_concurrency_limit reconcile_effective_concurrency reconcile
    reconcile_concurrency_limit take_expired_overlay max_concurrency initial_concurrency
busy = (
  refl,
  (_, refl, record { unlimited = refl; restored = refl }),
  refl,
  (refl, (_, refl, record { unlimited = refl; restored = refl }), refl, tt),
)

rounds_busy_example :
    (rounds fixed counting Store runner (watched 0 1) filled).gate.current_limit ≡ 9
rounds_busy_example =
    rounds_busy fixed counting counting_laws Store Store_laws runner (watched 0 1) filled fits
      ((tt, tt), ((tt, tt), tt)) (watched-MonitorIsSound 0 1 (omega arith) (omega arith))
      (λ r e. ap (λ (x : Record). x.gate) (some_eq fixed counting Store Store_laws runner (sym e)))
      busy
