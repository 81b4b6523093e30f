-- ===== src/OverlayStore/Ops.antt =====
-- The operations of the store as data, and a run of them with the dispatches between.
use service_daemon_rs.External.Float.{F64}
use service_daemon_rs.External.Semaphore.{Semaphore}
use service_daemon_rs.External.ServiceMap.{ServiceMap}
use service_daemon_rs.Prelude.{ℕ, Option, none, some, List, [], ◌∷◌, ok, err, Result}
use service_daemon_rs.Policy.Overlay.{TriggerPolicyOverlay}
use service_daemon_rs.TriggerRunner.Gate.{Gate, Schedule, Act, act_all}
use service_daemon_rs.OverlayStore.Record.{TriggerBasePolicy, TriggerPolicyOverlayRecord}
use service_daemon_rs.OverlayStore.{
  register_trigger, remove_trigger_generation, request_overlay, clear_overlay, effective_policy,
  effective_concurrency_limit, reconcile_effective_concurrency, apply_effective_concurrency,
}

module _ (F : F64) (S : Semaphore) (M : ServiceMap (TriggerPolicyOverlayRecord F S)) where
  open M use {Map, get, insert, remove_if}

  -- The operations of the store with their arguments, and the dispatches of a service's runner.
  pub data Op : Type 0 where
    registers : ℕ → ℕ → TriggerBasePolicy F S → Gate S → Op
    ends : ℕ → ℕ → Op
    requests : ℕ → ℕ → ℕ → TriggerPolicyOverlay F → Op
    clears : ℕ → ℕ → List ℕ → Op
    reads_policy : ℕ → ℕ → ℕ → TriggerBasePolicy F S → Op
    reads_limit : ℕ → ℕ → ℕ → ℕ → Op
    reconciles : ℕ → Schedule S → ℕ → ℕ → ℕ → Op
    applies : ℕ → Schedule S → ℕ → ℕ → Op
    dispatches : ℕ → List (Act S) → Op

  -- An error leaves the map as it was.
  abbrev pub after : {E : Type 0} → Map → Result Map E → Map
  after m (ok m') = m'
  after m (err e) = m

  abbrev pub run_acts : Map → ℕ → List (Act S) → Option (TriggerPolicyOverlayRecord F S) → Map
  run_acts m k acts none = m
  run_acts m k acts (some r) = insert m k (record r { gate = act_all S r.gate acts })

  unfoldable pub step : Map → Op → Map
  step m (registers k g base gate) = register_trigger F S M m k g base gate
  step m (ends k g) = remove_trigger_generation F S M m k g
  step m (requests now k g o) = after m (request_overlay F S M now m k g o)
  step m (clears k g reason) = after m (clear_overlay F S M m k g reason)
  step m (reads_policy now k g base) = (effective_policy F S M now m k g base).0
  step m (reads_limit now k g fallback) = (effective_concurrency_limit F S M now m k g fallback).0
  step m (reconciles now sched k g target) =
      (reconcile_effective_concurrency F S M now sched m k g target).0
  step m (applies now sched k g) = apply_effective_concurrency F S M now sched m k g
  step m (dispatches k acts) = run_acts m k acts (get m k)

  unfoldable pub steps : Map → List Op → Map
  steps m [] = m
  steps m (o ∷ os) = steps (step m o) os
