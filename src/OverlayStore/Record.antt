-- ===== src/OverlayStore/Record.antt =====
-- `TriggerBasePolicy`, `EffectiveTriggerPolicy` and `TriggerPolicyOverlayRecord` of
-- core/trigger_policy_overlay.rs, and what the store does to one record. The record's semaphore and
-- limit are those of the trigger's runner: one gate. The log lines are left out.
use service_daemon_rs.External.Float.{F64}
use service_daemon_rs.External.Semaphore.{Semaphore}
use service_daemon_rs.Prelude.{
  ℕ, ◌-◌, min, max, Bool, false, ◌&&◌, ◌||◌, not, Option, none, some, ltb, leb, if◌then◌else◌,
  is_some, map_or, and_then, unwrap_or, Result, ok,
}
use service_daemon_rs.Policy.Scaling.{ScalingPolicy}
use service_daemon_rs.Policy.Restart.{RestartPolicy}
use service_daemon_rs.Policy.Overlay.{TriggerPolicyOverlay, TriggerPolicyOverlayError, reject_if}
use service_daemon_rs.TriggerRunner.Gate.{Gate, Schedule, shrink, grow}

module _ (F : F64) (S : Semaphore) where
  open F use {Num}
  open S use {available_permits}

  pub record TriggerBasePolicy : Type 0 where
    pub restart_policy : RestartPolicy Num
    pub scaling : Option ScalingPolicy

  unfoldable pub max_concurrency : TriggerBasePolicy → ℕ
  max_concurrency base = map_or base.scaling 1 λ policy. policy.max_concurrency

  unfoldable pub initial_concurrency : TriggerBasePolicy → ℕ
  initial_concurrency base = map_or base.scaling 1 λ policy. policy.initial_concurrency

  pub record EffectiveTriggerPolicy : Type 0 where
    pub restart_policy : RestartPolicy Num
    pub dispatch_timeout : Option ℕ

  pub record ActiveTriggerPolicyOverlay : Type 0 where
    pub overlay : TriggerPolicyOverlay F
    pub expires_at : ℕ

  -- With the fields of `TriggerPolicyOverlayState`, which the code keeps under a lock.
  pub record TriggerPolicyOverlayRecord : Type 0 where
    pub base : TriggerBasePolicy
    pub generation : ℕ
    pub gate : Gate S
    pub overlay : Option ActiveTriggerPolicyOverlay
    pub restore_base_on_next_reconcile : Bool

  -- `state.overlay.as_ref().and_then(|active| active.overlay.concurrency_limit())`.
  abbrev pub overlay_limit : Option ActiveTriggerPolicyOverlay → Option ℕ
  overlay_limit o = and_then o λ active. active.overlay.concurrency_limit

  -- `state.overlay.as_ref().is_some_and(|active| now >= active.expires_at)`.
  abbrev pub is_expired : ℕ → TriggerPolicyOverlayRecord → Bool
  is_expired now r = map_or r.overlay false λ active. leb active.expires_at now

  -- `take_expired_overlay`.
  unfoldable pub take_expired_overlay : ℕ → TriggerPolicyOverlayRecord → TriggerPolicyOverlayRecord
  take_expired_overlay now r =
      if is_expired now r
      then record r {
        overlay = none;
        restore_base_on_next_reconcile =
            is_some (overlay_limit r.overlay) || r.restore_base_on_next_reconcile;
      }
      else r

  -- `validate_overlay_bounds`.
  unfoldable pub validate_overlay_bounds :
      TriggerPolicyOverlayRecord
      → TriggerPolicyOverlay F
      → Result (Unit {0}) TriggerPolicyOverlayError
  validate_overlay_bounds r o = map_or o.concurrency_limit (ok tt) λ limit.
      reject_if (ltb (max_concurrency r.base) limit)
        (TriggerPolicyOverlayError.concurrency_limit_exceeds_max limit (max_concurrency r.base))

  -- The last lines of `request_overlay`, once the end of the overlay is computed.
  unfoldable pub accept :
      ℕ → TriggerPolicyOverlay F → TriggerPolicyOverlayRecord → TriggerPolicyOverlayRecord
  accept expires_at o r = record r {
    overlay = some (record { overlay = o; expires_at = expires_at });
    restore_base_on_next_reconcile =
        is_some (overlay_limit r.overlay) && not (is_some o.concurrency_limit);
  }

  -- The last lines of `clear_overlay`.
  unfoldable pub clear : TriggerPolicyOverlayRecord → TriggerPolicyOverlayRecord
  clear r = record r {
    overlay = none;
    restore_base_on_next_reconcile =
        is_some (overlay_limit r.overlay) || r.restore_base_on_next_reconcile;
  }

  -- The policy that `effective_policy` returns for a record.
  abbrev pub effective : TriggerPolicyOverlayRecord → EffectiveTriggerPolicy
  effective r =
      map_or r.overlay (record { restart_policy = r.base.restart_policy; dispatch_timeout = none })
        λ active. record {
          restart_policy = unwrap_or active.overlay.retry_policy r.base.restart_policy;
          dispatch_timeout = active.overlay.dispatch_timeout;
        }

  -- `reconcile_concurrency_limit`. What it returns is the limit of the gate that it leaves.
  unfoldable pub reconcile_concurrency_limit :
      Schedule S → ℕ → TriggerPolicyOverlayRecord → TriggerPolicyOverlayRecord
  reconcile_concurrency_limit sched wanted r =
      let desired = max (min wanted (max_concurrency r.base)) 1 in
      let current = r.gate.current_limit in
      let in_flight = current - available_permits r.gate.semaphore in
      let target = max desired in_flight in
      if ltb current desired
      then record r { gate = grow S desired r.gate }
      else if ltb desired current
      then record r { gate = shrink S (current - target) sched r.gate }
      else r

  -- The limit that `reconcile_effective_concurrency` wants, and the flag as it leaves it.
  abbrev pub desired_limit : ℕ → TriggerPolicyOverlayRecord → ℕ × Bool
  desired_limit base_target r =
      map_or (overlay_limit r.overlay)
        (if r.restore_base_on_next_reconcile
          then (initial_concurrency r.base, false)
          else (base_target, r.restore_base_on_next_reconcile))
        λ limit. (limit, false)

  abbrev pub reconcile_taken :
      Schedule S → ℕ → TriggerPolicyOverlayRecord → TriggerPolicyOverlayRecord
  reconcile_taken sched base_target r =
      let (desired, restore) = desired_limit base_target r in
      reconcile_concurrency_limit sched desired
        (record r { restore_base_on_next_reconcile = restore })

  -- `reconcile_effective_concurrency` on the record of the generation.
  unfoldable pub reconcile :
      ℕ → Schedule S → ℕ → TriggerPolicyOverlayRecord → TriggerPolicyOverlayRecord
  reconcile now sched base_target r = reconcile_taken sched base_target (take_expired_overlay now r)
