-- ===== src/OverlayStore.antt =====
-- service-daemon/src/core/trigger_policy_overlay.rs: `TriggerPolicyOverlayStore`. Each operation is one
-- step, with the clock's reading as an argument; a write through a shared record is an `insert`.
pub mod Record
pub mod Requests
pub mod Limits
pub mod Ops
pub mod Lifecycle
pub mod Generations
pub mod Invariant
use service_daemon_rs.External.Float.{F64}
use service_daemon_rs.External.Semaphore.{Semaphore}
use service_daemon_rs.External.ServiceMap.{ServiceMap, matching}
use service_daemon_rs.Prelude.{
  ℕ, max, Bool, true, false, Option, none, some, List, [], ◌∷◌, ◌==◌, if◌then◌else◌, map_or,
  unwrap_or, is_some, and_then, Result, ok, err, ◌>>=◌, ◌>>◌, map_err, ◌+◌, ◌-◌, ◌*◌, ◌^◌, leb,
}
use service_daemon_rs.Policy.Overlay.{
  TriggerPolicyOverlay, TriggerPolicyOverlayError, validate_shape, validate_reason,
}
use service_daemon_rs.TriggerRunner.Gate.{Gate, Schedule}
use Record.{
  TriggerBasePolicy, EffectiveTriggerPolicy, TriggerPolicyOverlayRecord, take_expired_overlay,
  validate_overlay_bounds, accept, clear, effective, reconcile, overlay_limit,
}

-- How a request fails: the error that it returns, or a panic.
pub data RequestFailure : Type 0 where
  rejected : TriggerPolicyOverlayError → RequestFailure
  panicked : RequestFailure

-- The last `Instant`: 64 bits of seconds with a sign, and nanoseconds.
abbrev pub instant_max : ℕ
instant_max = 2 ^ 63 * 1_000_000_000 - 1

-- `Instant + Duration`, which panics where the sum is no `Instant`.
unfoldable pub instant_add : ℕ → ℕ → Result ℕ RequestFailure
instant_add now duration =
    if leb (now + duration) instant_max then ok (now + duration) else err RequestFailure.panicked

module _ (F : F64) (S : Semaphore) (M : ServiceMap (TriggerPolicyOverlayRecord F S)) where
  open M use {Map, get, insert, remove_if}

  -- `register_trigger`, which replaces the record of an earlier generation.
  unfoldable pub register_trigger : Map → ℕ → ℕ → TriggerBasePolicy F S → Gate S → Map
  register_trigger m service_id generation base gate = insert m service_id (record {
    base = base;
    generation = generation;
    gate = gate;
    overlay = none;
    restore_base_on_next_reconcile = false;
  })

  abbrev pub is_generation : ℕ → TriggerPolicyOverlayRecord F S → Bool
  is_generation generation r = r.generation == generation

  -- `remove_trigger_generation`.
  unfoldable pub remove_trigger_generation : Map → ℕ → ℕ → Map
  remove_trigger_generation m service_id generation =
      (remove_if m service_id (is_generation generation)).0

  -- `record_for_generation`.
  abbrev pub record_for_generation : Map → ℕ → ℕ → Option (TriggerPolicyOverlayRecord F S)
  record_for_generation m service_id generation =
      matching (is_generation generation) (get m service_id)

  abbrev or_unavailable :
      Option (TriggerPolicyOverlayRecord F S)
      → Result (TriggerPolicyOverlayRecord F S) TriggerPolicyOverlayError
  or_unavailable none = err TriggerPolicyOverlayError.trigger_overlay_unavailable
  or_unavailable (some r) = ok r

  -- `request_overlay`: the map after it, or the error; on an error or a panic the map stays as it was.
  unfoldable pub request_overlay :
      ℕ → Map → ℕ → ℕ → TriggerPolicyOverlay F → Result Map RequestFailure
  unfolding instant_add
  request_overlay now m service_id generation overlay = do
    map_err RequestFailure.rejected (validate_shape F overlay)
    r ←
        map_err RequestFailure.rejected
          (or_unavailable (record_for_generation m service_id generation))
    map_err RequestFailure.rejected (validate_overlay_bounds F S r overlay)
    expires_at ← instant_add now overlay.ttl
    ok (insert m service_id (accept F S expires_at overlay r))

  -- `clear_overlay`.
  unfoldable pub clear_overlay : Map → ℕ → ℕ → List ℕ → Result Map TriggerPolicyOverlayError
  clear_overlay m service_id generation reason = do
    validate_reason reason
    r ← or_unavailable (record_for_generation m service_id generation)
    ok (insert m service_id (clear F S r))

  -- `effective_policy`, which also prunes an expired overlay.
  unfoldable pub effective_policy :
      ℕ → Map → ℕ → ℕ → TriggerBasePolicy F S → Map × EffectiveTriggerPolicy F S
  effective_policy now m service_id generation fallback =
      map_or (record_for_generation m service_id generation)
        (m, record { restart_policy = fallback.restart_policy; dispatch_timeout = none })
        λ r. let r' = take_expired_overlay F S now r in (insert m service_id r', effective F S r')

  -- `effective_concurrency_limit`, which also prunes an expired overlay.
  unfoldable pub effective_concurrency_limit : ℕ → Map → ℕ → ℕ → ℕ → Map × ℕ
  effective_concurrency_limit now m service_id generation fallback =
      map_or (record_for_generation m service_id generation) (m, fallback)
        λ r.
          let r' = take_expired_overlay F S now r in
          (insert m service_id r', unwrap_or (overlay_limit F S r'.overlay) fallback)

  -- `reconcile_effective_concurrency`: the map, and the limit that it returns.
  unfoldable pub reconcile_effective_concurrency : ℕ → Schedule S → Map → ℕ → ℕ → ℕ → Map × ℕ
  reconcile_effective_concurrency now sched m service_id generation base_target =
      map_or (record_for_generation m service_id generation) (m, max base_target 1)
        λ r.
          let r' = reconcile F S now sched base_target r in
          (insert m service_id r', r'.gate.current_limit)

  -- `current_limit_or_base`.
  abbrev pub current_limit_or_base : Map → ℕ → ℕ → ℕ
  current_limit_or_base m service_id generation =
      map_or (record_for_generation m service_id generation) 1 λ r. r.gate.current_limit

  -- `apply_effective_concurrency`, the first thing that a dispatch does.
  unfoldable pub apply_effective_concurrency : ℕ → Schedule S → Map → ℕ → ℕ → Map
  apply_effective_concurrency now sched m service_id generation =
      (reconcile_effective_concurrency now sched m service_id generation
        (current_limit_or_base m service_id generation)).0
