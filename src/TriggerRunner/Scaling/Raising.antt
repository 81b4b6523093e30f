-- ===== src/TriggerRunner/Scaling/Raising.antt =====
-- Reconciling a record whose overlay sets no limit, where no restore is pending, raises the limit to a
-- target within the maximum.
use service_daemon_rs.External.Float.{F64}
use service_daemon_rs.External.Semaphore.{Semaphore, Laws}
use service_daemon_rs.OverlayStore.Record.{
  TriggerPolicyOverlayRecord, overlay_limit, take_expired_overlay, max_concurrency, reconcile,
  reconcile_concurrency_limit, reconcile_taken,
}
use service_daemon_rs.Prelude.{ℕ, ◌≤◌, ◌≡◌, min, none, arith, max, false}
use service_daemon_rs.TriggerRunner.Gate.{Schedule}
use service_daemon_rs.TriggerRunner.Gate.Balance.{grow-limit}

module _ (F : F64) (S : Semaphore) (L : Laws S) where
  -- The overlay sets no limit, and the base limit is in force.
  pub record IsUnhindered (r : TriggerPolicyOverlayRecord F S) : Type 0 where
    pub unlimited : overlay_limit F S r.overlay ≡ none
    pub restored : r.restore_base_on_next_reconcile ≡ false

  pub take_expired-IsUnhindered :
      (now : ℕ) (r : TriggerPolicyOverlayRecord F S)
      → IsUnhindered r
      → IsUnhindered (take_expired_overlay F S now r)
  unfolding take_expired_overlay
  take_expired-IsUnhindered now r k = record {
    unlimited = ground (arith, k.unlimited);
    restored = ground (arith, k.unlimited, k.restored);
  }

  raised :
      (sched : Schedule S) (target : ℕ) (r : TriggerPolicyOverlayRecord F S)
      → r.gate.current_limit ≤ target
      → 1 ≤ target
      → target ≤ max_concurrency F S r.base
      → (reconcile_concurrency_limit F S sched target r).gate.current_limit ≡ target
  unfolding reconcile_concurrency_limit
  raised sched target r b l h =
      let cut : max (min target (max_concurrency F S r.base)) 1 ≡ target = omega (arith, h, l) in
      rw cut (ground (arith, b, grow-limit S L target r.gate))

  taken_raises :
      (sched : Schedule S) (target : ℕ) (r : TriggerPolicyOverlayRecord F S)
      → IsUnhindered r
      → r.gate.current_limit ≤ target
      → 1 ≤ target
      → target ≤ max_concurrency F S r.base
      → (reconcile_taken F S sched target r).gate.current_limit ≡ target
  taken_raises sched target r k b l h =
      rw (k.unlimited, k.restored)
        (raised sched target (record r { restore_base_on_next_reconcile = false }) b l h)

  pub take_expired_same :
      (now : ℕ) (r : TriggerPolicyOverlayRecord F S)
      → ((take_expired_overlay F S now r).gate ≡ r.gate)
        × ((take_expired_overlay F S now r).base ≡ r.base)
        × ((take_expired_overlay F S now r).generation ≡ r.generation)
  unfolding take_expired_overlay
  take_expired_same now r = (ground arith, ground arith, ground arith)

  pub reconcile_raises :
      (now : ℕ) (sched : Schedule S) (target : ℕ) (r : TriggerPolicyOverlayRecord F S)
      → IsUnhindered r
      → r.gate.current_limit ≤ target
      → 1 ≤ target
      → target ≤ max_concurrency F S r.base
      → (reconcile F S now sched target (take_expired_overlay F S now r)).gate.current_limit
        ≡ target
  unfolding reconcile
  reconcile_raises now sched target r k b l h =
      let r₁ = take_expired_overlay F S now r in
      let same = take_expired_same now r in
      let again = take_expired_same now r₁ in
      taken_raises sched target (take_expired_overlay F S now r₁)
        (take_expired-IsUnhindered now r₁ (take_expired-IsUnhindered now r k))
        (rw (again.0, same.0) b) l (rw (again.1, same.1) h)
