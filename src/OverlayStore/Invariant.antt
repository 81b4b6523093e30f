-- ===== src/OverlayStore/Invariant.antt =====
-- What the store keeps of every record over any sequence of operations.
use mathlib.Core.Path.{subst, sym}
use service_daemon_rs.External.Float.{F64}
use service_daemon_rs.External.Semaphore.{Semaphore}
use service_daemon_rs.External.Semaphore
use service_daemon_rs.External.ServiceMap.{ServiceMap, Laws}
use service_daemon_rs.Prelude.{
  zero, ℕ, ◌+◌, ◌≡◌, ◌≢◌, refl, true, false, Option, none, some, List, [], ◌∷◌, ◌==◌, arith, ok,
  err, Result, Bool-cases, Option-cases, inl, inr, All, suc,
}
use service_daemon_rs.Policy.Overlay.{TriggerPolicyOverlay}
use service_daemon_rs.TriggerRunner.Gate.{Gate, Schedule, Act, act_all}
use service_daemon_rs.TriggerRunner.Gate.Balance.{act_all-IsBalanced, act_all-limit}
use service_daemon_rs.OverlayStore.Record.{
  TriggerBasePolicy, TriggerPolicyOverlayRecord, take_expired_overlay, accept, clear, reconcile,
}
use service_daemon_rs.OverlayStore.Limits.{
  IsSound, LimitWithin, take_expired_overlay-IsSound, accept-IsSound, clear-IsSound,
  reconcile-IsSound,
}
use service_daemon_rs.OverlayStore.Requests.{
  Accepted, LimitAllowed, request_overlay-ok_iff, clear_inversion,
}
use service_daemon_rs.OverlayStore.{
  register_trigger, remove_trigger_generation, record_for_generation, request_overlay,
  clear_overlay, effective_policy, effective_concurrency_limit, reconcile_effective_concurrency,
  apply_effective_concurrency, is_generation,
}
use service_daemon_rs.OverlayStore.Ops.{
  Op, registers, ends, requests, clears, reads_policy, reads_limit, reconciles, applies, dispatches,
  after, run_acts, step, steps,
}

module _ (F : F64) (S : Semaphore) (LS : Semaphore.Laws S)
    (M : ServiceMap (TriggerPolicyOverlayRecord F S)) (LM : Laws M) where
  open M use {Map, get, insert, remove_if}

  -- Every record of the map is sound.
  abbrev pub AllSound : Map → Type 0
  AllSound m = (k : ℕ) (r : TriggerPolicyOverlayRecord F S) → get m k ≡ some r → IsSound F S LS r

  -- A trigger is registered with a sound record: a valid policy and the gate that its runner made.
  abbrev pub IsAdmissible : Op F S M → Type 0
  IsAdmissible (registers k g base gate) = IsSound F S LS (record {
    base = base;
    generation = g;
    gate = gate;
    overlay = none;
    restore_base_on_next_reconcile = false;
  })
  IsAdmissible o = Unit {0}

  pub insert-AllSound :
      (m : Map) (k : ℕ) (r : TriggerPolicyOverlayRecord F S)
      → AllSound m
      → IsSound F S LS r
      → AllSound (insert m k r)
  insert-AllSound m k r a s j q e = elim (Bool-cases (k == j)) [
    | inl same ↦ subst (IsSound F S LS) (found same) s
    | inr other ↦ a j q (kept other)
  ]
    where
      found : (k == j) ≡ true → r ≡ q
      found same = ground (arith, LM.get-insert m k j r)

      kept : (k == j) ≡ false → get m j ≡ some q
      kept other = ground (arith, LM.get-insert m k j r)

  update-AllSound :
      (m : Map) (k g : ℕ) (f : TriggerPolicyOverlayRecord F S → TriggerPolicyOverlayRecord F S)
      → AllSound m
      → (r : TriggerPolicyOverlayRecord F S) → (IsSound F S LS r → IsSound F S LS (f r))
      → record_for_generation F S M m k g ≡ some r
      → AllSound (insert m k (f r))
  update-AllSound m k g f a r keep e = insert-AllSound m k (f r) a (keep (a k r found))
    where
      found : get m k ≡ some r
      found = ground arith

  registers-AllSound :
      (m : Map) (k g : ℕ) (base : TriggerBasePolicy F S) (gate : Gate S)
      → AllSound m
      → IsAdmissible (registers k g base gate)
      → AllSound (register_trigger F S M m k g base gate)
  unfolding register_trigger
  registers-AllSound m k g base gate a s = insert-AllSound m k _ a s

  ends-AllSound :
      (m : Map) (k g : ℕ) → AllSound m → AllSound (remove_trigger_generation F S M m k g)
  unfolding remove_trigger_generation
  ends-AllSound m k g a j q e =
      a j q (ground (arith, LM.get-remove_if m k j (is_generation F S M g)))

  limit_within :
      (bound : ℕ) (limit : Option ℕ)
      → limit ≢ some 0
      → LimitAllowed F S M bound limit
      → LimitWithin F S LS bound limit
  limit_within bound none h a = tt
  limit_within bound (some zero) h a = absurd (h refl)
  limit_within bound (some (suc n)) h a = (omega arith, a)

  requests-AllSound :
      (now : ℕ) (m : Map) (k g : ℕ) (o : TriggerPolicyOverlay F) (m' : Map)
      → AllSound m
      → Accepted F S M now m k g o m'
      → AllSound m'
  requests-AllSound now m k g o m' a c = subst AllSound (sym c.result) (
      update-AllSound m k g (accept F S (now + o.ttl) o) a c.found
        (λ s.
          accept-IsSound F S LS (now + o.ttl) o c.found s
            (limit_within _ o.concurrency_limit c.well_shaped.limit_positive c.allowed))
        c.is_found)

  pub reconciles-AllSound :
      (now : ℕ) (sched : Schedule S) (m : Map) (k g target : ℕ)
      → AllSound m
      → AllSound (reconcile_effective_concurrency F S M now sched m k g target).0
  unfolding reconcile_effective_concurrency
  reconciles-AllSound now sched m k g target a =
      elim (Option-cases (record_for_generation F S M m k g)) [
        | inl e ↦ rw e a
        | inr (r, e) ↦ rw e (
            update-AllSound m k g (reconcile F S now sched target) a r
              (reconcile-IsSound F S LS now sched target r) e)
      ]

  reads_policy-AllSound :
      (now : ℕ) (m : Map) (k g : ℕ) (base : TriggerBasePolicy F S)
      → AllSound m
      → AllSound (effective_policy F S M now m k g base).0
  unfolding effective_policy
  reads_policy-AllSound now m k g base a = elim (Option-cases (record_for_generation F S M m k g)) [
    | inl e ↦ rw e a
    | inr (r, e) ↦ rw e (
        update-AllSound m k g (take_expired_overlay F S now) a r
          (take_expired_overlay-IsSound F S LS now r) e)
  ]

  pub reads_limit-AllSound :
      (now : ℕ) (m : Map) (k g fallback : ℕ)
      → AllSound m
      → AllSound (effective_concurrency_limit F S M now m k g fallback).0
  unfolding effective_concurrency_limit
  reads_limit-AllSound now m k g fallback a =
      elim (Option-cases (record_for_generation F S M m k g)) [
        | inl e ↦ rw e a
        | inr (r, e) ↦ rw e (
            update-AllSound m k g (take_expired_overlay F S now) a r
              (take_expired_overlay-IsSound F S LS now r) e)
      ]

  clears-AllSound :
      (m : Map) (k g : ℕ) (reason : List ℕ) (m' : Map)
      → AllSound m
      → clear_overlay F S M m k g reason ≡ ok m'
      → AllSound m'
  clears-AllSound m k g reason m' a h =
      let c = clear_inversion F S M m k g reason m' h in
      subst AllSound (sym c.2)
        (update-AllSound m k g (clear F S) a c.0 (clear-IsSound F S LS c.0) c.1)

  dispatches-AllSound :
      (m : Map) (k : ℕ) (acts : List (Act S))
      → AllSound m
      → AllSound (run_acts F S M m k acts (get m k))
  dispatches-AllSound m k acts a = elim (Option-cases (get m k)) [
    | inl e ↦ rw e a
    | inr (r, e) ↦ rw e (insert-AllSound m k _ a (acted r (a k r e)))
  ]
    where
      acted :
          (r : TriggerPolicyOverlayRecord F S)
          → IsSound F S LS r
          → IsSound F S LS (record r { gate = act_all S r.gate acts })
      acted r s = record {
        base_valid = s.base_valid;
        balanced = act_all-IsBalanced S LS r.gate acts s.balanced;
        positive = omega (arith, act_all-limit S LS r.gate acts, s.positive);
        within = omega (arith, act_all-limit S LS r.gate acts, s.within);
        overlay_within = s.overlay_within;
      }

  after-AllSound :
      {E : Type 0} (m : Map) (r : Result Map E)
      → AllSound m
      → ((m' : Map) → r ≡ ok m' → AllSound m')
      → AllSound (after F S M m r)
  after-AllSound m (ok m') a h = h m' refl
  after-AllSound m (err e) a h = a

  pub step-AllSound :
      (m : Map) (o : Op F S M) → AllSound m → IsAdmissible o → AllSound (step F S M m o)
  unfolding step apply_effective_concurrency
  step-AllSound m (registers k g base gate) a h = registers-AllSound m k g base gate a h
  step-AllSound m (ends k g) a h = ends-AllSound m k g a
  step-AllSound m (requests now k g o) a h =
      after-AllSound m (request_overlay F S M now m k g o) a λ m' e.
        requests-AllSound now m k g o m' a ((request_overlay-ok_iff F S M now m k g o m').0 e)
  step-AllSound m (clears k g reason) a h =
      after-AllSound m (clear_overlay F S M m k g reason) a
        λ m' e. clears-AllSound m k g reason m' a e
  step-AllSound m (reads_policy now k g base) a h = reads_policy-AllSound now m k g base a
  step-AllSound m (reads_limit now k g fallback) a h = reads_limit-AllSound now m k g fallback a
  step-AllSound m (reconciles now sched k g target) a h =
      reconciles-AllSound now sched m k g target a
  step-AllSound m (applies now sched k g) a h = reconciles-AllSound now sched m k g _ a
  step-AllSound m (dispatches k acts) a h = dispatches-AllSound m k acts a

  steps-AllSound :
      (m : Map) (os : List (Op F S M))
      → AllSound m
      → All IsAdmissible os
      → AllSound (steps F S M m os)
  unfolding steps
  steps-AllSound m [] a h = a
  steps-AllSound m (o ∷ os) a h = steps-AllSound (step F S M m o) os (step-AllSound m o a h.0) h.1

  -- A map whose records are all sound.
  pub record IsSoundStore (m : Map) : Type 0 where
    pub all_sound : AllSound m

  -- From an empty store, over any operations in any order and any dispatches, where triggers are
  -- registered with a valid policy and a sound gate, every record keeps its limit between 1 and the
  -- trigger's maximum, its overlay's limit too, and its permits balanced.
  pub steps-IsSoundStore :
      (os : List (Op F S M)) → All IsAdmissible os → IsSoundStore (steps F S M M.empty os)
  steps-IsSoundStore os h = record { all_sound = steps-AllSound M.empty os start h }
    where
      start : AllSound M.empty
      start k r e = cc (LM.get-empty k)
