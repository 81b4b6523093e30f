-- ===== src/OverlayStore/Limits.antt =====
-- The limits of one record: what the store keeps of it, and what reconciling sets.
use service_daemon_rs.External.Float.{F64}
use service_daemon_rs.External.Semaphore.{Semaphore, Laws}
use service_daemon_rs.Prelude.{ℕ, ◌-◌, ◌≤◌, min, max, Option, none, some, arith, map_or}
use service_daemon_rs.Policy.Scaling.{ScalingPolicy}
use service_daemon_rs.Policy.Scaling.Validity.{IsValid}
use service_daemon_rs.Policy.Overlay.{TriggerPolicyOverlay}
use service_daemon_rs.TriggerRunner.Gate.{Schedule}
use service_daemon_rs.TriggerRunner.Gate.Balance.{
  IsBalanced, shrink-IsBalanced, grow-IsBalanced, grow-limit,
}
use service_daemon_rs.OverlayStore.Record.{
  TriggerBasePolicy, TriggerPolicyOverlayRecord, max_concurrency, initial_concurrency,
  take_expired_overlay, accept, clear, reconcile, reconcile_concurrency_limit, overlay_limit,
  desired_limit,
}

module _ (F : F64) (S : Semaphore) (L : Laws S) where
  open S use {available_permits}

  -- A trigger without scaling, or with a valid policy.
  abbrev pub HasValidScaling : Option ScalingPolicy → Type 0
  HasValidScaling none = Unit {0}
  HasValidScaling (some p) = IsValid p

  abbrev pub LimitWithin : ℕ → Option ℕ → Type 0
  LimitWithin bound none = Unit {0}
  LimitWithin bound (some limit) = (1 ≤ limit) × (limit ≤ bound)

  -- What holds of a record between two operations of the store.
  pub record IsSound (r : TriggerPolicyOverlayRecord F S) : Type 0 where
    pub base_valid : HasValidScaling r.base.scaling
    pub balanced : IsBalanced S L r.gate
    pub positive : 1 ≤ r.gate.current_limit
    pub within : r.gate.current_limit ≤ max_concurrency F S r.base
    pub overlay_within : LimitWithin (max_concurrency F S r.base) (overlay_limit F S r.overlay)

  scaling_bounds :
      (o : Option ScalingPolicy)
      → HasValidScaling o
      → (1 ≤ map_or {B = ℕ} o 1 (λ p. p.initial_concurrency))
        × (map_or {B = ℕ} o 1 (λ p. p.initial_concurrency)
            ≤ map_or {B = ℕ} o 1 (λ p. p.max_concurrency))
  scaling_bounds none v = (omega arith, omega arith)
  scaling_bounds (some p) v = (v.initial_positive, v.initial_within)

  pub base_bounds :
      (b : TriggerBasePolicy F S)
      → HasValidScaling b.scaling
      → (1 ≤ initial_concurrency F S b) × (initial_concurrency F S b ≤ max_concurrency F S b)
  unfolding initial_concurrency max_concurrency
  base_bounds b v = scaling_bounds b.scaling v

  pub take_expired_overlay-IsSound :
      (now : ℕ) (r : TriggerPolicyOverlayRecord F S)
      → IsSound r
      → IsSound (take_expired_overlay F S now r)
  unfolding take_expired_overlay
  take_expired_overlay-IsSound now r s = ground arith

  pub accept-IsSound :
      (expires_at : ℕ) (o : TriggerPolicyOverlay F) (r : TriggerPolicyOverlayRecord F S)
      → IsSound r
      → LimitWithin (max_concurrency F S r.base) o.concurrency_limit
      → IsSound (accept F S expires_at o r)
  unfolding accept
  accept-IsSound expires_at o r s h = ground arith

  pub clear-IsSound : (r : TriggerPolicyOverlayRecord F S) → IsSound r → IsSound (clear F S r)
  unfolding clear
  clear-IsSound r s = ground arith

  reconcile_concurrency_limit-IsSound :
      (sched : Schedule S) (wanted : ℕ) (r : TriggerPolicyOverlayRecord F S)
      → IsSound r
      → IsSound (reconcile_concurrency_limit F S sched wanted r)
  unfolding reconcile_concurrency_limit
  reconcile_concurrency_limit-IsSound sched wanted r s =
      let desired = max (min wanted (max_concurrency F S r.base)) 1 in
      let current = r.gate.current_limit in
      let target = max desired (current - available_permits r.gate.semaphore) in
      let grown = grow-IsBalanced S L desired r.gate in
      let shrunk = shrink-IsBalanced S L (current - target) sched r.gate s.balanced in
      record {
        base_valid = ground (arith, s.base_valid);
        balanced = ground (arith, grown, shrunk, s.balanced);
        positive = ground (arith, grow-limit S L desired r.gate, shrunk);
        within =
            ground (arith, grow-limit S L desired r.gate, shrunk, base_bounds r.base s.base_valid);
        overlay_within = ground (arith, s.overlay_within);
      }

  -- Reconciling keeps a record sound, whatever dispatches do meanwhile.
  pub reconcile-IsSound :
      (now : ℕ) (sched : Schedule S) (base_target : ℕ) (r : TriggerPolicyOverlayRecord F S)
      → IsSound r
      → IsSound (reconcile F S now sched base_target r)
  unfolding reconcile
  reconcile-IsSound now sched base_target r s =
      let r' = take_expired_overlay F S now r in
      let (desired, restore) = desired_limit F S base_target r' in
      let s' = take_expired_overlay-IsSound now r s in
      reconcile_concurrency_limit-IsSound sched desired
        (record r' { restore_base_on_next_reconcile = restore })
        (record {
          base_valid = s'.base_valid;
          balanced = s'.balanced;
          positive = s'.positive;
          within = s'.within;
          overlay_within = s'.overlay_within;
        })
