-- ===== src/TriggerRunner/Scaling/Policies.antt =====
-- The record of a generation keeps the policy that it was registered with.
use mathlib.Core.Path.{subst}
use service_daemon_rs.External.Float.{F64}
use service_daemon_rs.External.Semaphore.{Semaphore}
use service_daemon_rs.External.ServiceMap.{ServiceMap, Laws}
use service_daemon_rs.Prelude.{
  ℕ, ◌≡◌, refl, ap, sym, ◌∙◌, true, false, ◌&&◌, Option, none, some, List, ◌==◌, arith, ok, err,
  Result, if◌then◌else◌, Bool-cases, Option-cases, inl, inr,
}
use service_daemon_rs.Policy.Overlay.{TriggerPolicyOverlay}
use service_daemon_rs.OverlayStore.Record.{
  TriggerBasePolicy, TriggerPolicyOverlayRecord, take_expired_overlay, accept, clear, reconcile,
  reconcile_concurrency_limit,
}
use service_daemon_rs.OverlayStore.Requests.{request_overlay-ok_iff, clear_inversion}
use service_daemon_rs.OverlayStore.{
  register_trigger, remove_trigger_generation, record_for_generation, request_overlay,
  clear_overlay, effective_policy, effective_concurrency_limit, reconcile_effective_concurrency,
  apply_effective_concurrency, is_generation,
}
use service_daemon_rs.OverlayStore.Ops.{
  Op, registers, ends, requests, clears, reads_policy, reads_limit, reconciles, applies, dispatches,
  after, run_acts, step,
}
use service_daemon_rs.TriggerRunner.Gate.{Gate, Schedule, Act}
use service_daemon_rs.TriggerRunner.Scaling.Monitor.{Runner}

module _ (F : F64) (S : Semaphore) (M : ServiceMap (TriggerPolicyOverlayRecord F S)) (LM : Laws M)
    (u : Runner) where
  open M use {Map, get, insert, remove_if}

  abbrev pub own : Map → Option (TriggerPolicyOverlayRecord F S)
  own m = record_for_generation F S M m u.service_id u.generation

  abbrev pub HasPolicy : Map → Type 0
  HasPolicy m =
      (r : TriggerPolicyOverlayRecord F S) → own m ≡ some r → r.base.scaling ≡ some u.scaling

  -- No other runner registers as this one.
  abbrev pub IsForeign : Op F S M → Type 0
  IsForeign (registers k g base gate) = ((k == u.service_id) && (g == u.generation)) ≡ false
  IsForeign op = Unit {0}

  -- A record that stands for another one of the same policy and generation.
  record Stands (q r : TriggerPolicyOverlayRecord F S) : Type 0 where
    same_generation : q.generation ≡ r.generation
    same_scaling : q.base.scaling ≡ r.base.scaling

  take_expired-Stands :
      (now : ℕ) (r : TriggerPolicyOverlayRecord F S) → Stands (take_expired_overlay F S now r) r
  unfolding take_expired_overlay
  take_expired-Stands now r = record { same_generation = ground arith; same_scaling = ground arith }

  reconcile-Stands :
      (now : ℕ) (sched : Schedule S) (target : ℕ) (r : TriggerPolicyOverlayRecord F S)
      → Stands (reconcile F S now sched target r) r
  unfolding reconcile reconcile_concurrency_limit take_expired_overlay
  reconcile-Stands now sched target r = record {
    same_generation = ground arith;
    same_scaling = ground arith;
  }

  pub reconcile-generation :
      (now : ℕ) (sched : Schedule S) (target : ℕ) (r : TriggerPolicyOverlayRecord F S)
      → (reconcile F S now sched target r).generation ≡ r.generation
  reconcile-generation now sched target r = (reconcile-Stands now sched target r).same_generation

  pub own-insert :
      (m : Map) (k : ℕ) (q : TriggerPolicyOverlayRecord F S)
      → own (insert m k q) ≡ (
          if k == u.service_id
          then (if q.generation == u.generation then some q else none)
          else own m)
  own-insert m k q = ground (arith, LM.get-insert m k u.service_id q)

  pub some_eq : {a b : TriggerPolicyOverlayRecord F S} → some a ≡ some b → a ≡ b
  some_eq h = ground (arith, h)

  -- The runner finds what takes the place of its record.
  pub own-kept :
      (m : Map) (q r : TriggerPolicyOverlayRecord F S)
      → own m ≡ some r
      → q.generation ≡ r.generation
      → own (insert m u.service_id q) ≡ some q
  own-kept m q r e same =
      let current : (r.generation == u.generation) ≡ true = ground (arith, e) in
      own-insert m u.service_id q ∙ ground (arith, current, same)

  -- Whatever is put in at this runner's place for its generation has its policy.
  pub put-HasPolicy :
      (m : Map) (k : ℕ) (q : TriggerPolicyOverlayRecord F S)
      → HasPolicy m
      → ((k == u.service_id) ≡ true
          → (q.generation == u.generation) ≡ true
          → q.base.scaling ≡ some u.scaling)
      → HasPolicy (insert m k q)
  put-HasPolicy m k q h new x is = elim (Bool-cases (k == u.service_id)) [
    | inl same ↦ elim (Bool-cases (q.generation == u.generation)) [
      | inl own_generation ↦
          let put : own (insert m k q) ≡ some q =
            own-insert m k q ∙ ground (arith, same, own_generation) in
          ap (λ y. y.base.scaling) (some_eq (sym is ∙ put)) ∙ new same own_generation
      | inr stale ↦ absurd (ground (arith, own-insert m k q, same, stale, is))
    ]
    | inr other ↦ h x (ground (arith, own-insert m k q, other, is))
  ]

  insert-HasPolicy :
      (m : Map) (k : ℕ) (q r : TriggerPolicyOverlayRecord F S)
      → HasPolicy m
      → get m k ≡ some r
      → Stands q r
      → HasPolicy (insert m k q)
  insert-HasPolicy m k q r h e st = put-HasPolicy m k q h λ same own_generation.
      let here : k ≡ u.service_id = ground (arith, same) in
      let at_home : get m u.service_id ≡ some r = ap (get m) (sym here) ∙ e in
      let now : (r.generation == u.generation) ≡ true =
        ap (λ n. n == u.generation) (sym st.same_generation) ∙ own_generation in
      st.same_scaling ∙ h r (ground (arith, at_home, now))

  found-HasPolicy :
      (m : Map) (k g : ℕ) (q r : TriggerPolicyOverlayRecord F S)
      → HasPolicy m
      → record_for_generation F S M m k g ≡ some r
      → Stands q r
      → HasPolicy (insert m k q)
  found-HasPolicy m k g q r h e st = insert-HasPolicy m k q r h (ground (arith, e)) st

  registers-HasPolicy :
      (m : Map) (k g : ℕ) (base : TriggerBasePolicy F S) (gate : Gate S)
      → HasPolicy m
      → ((k == u.service_id) && (g == u.generation)) ≡ false
      → HasPolicy (register_trigger F S M m k g base gate)
  unfolding register_trigger
  registers-HasPolicy m k g base gate h foreign =
      put-HasPolicy m k _ h
        λ same own_generation. absurd (ground (arith, foreign, same, own_generation))

  ends-HasPolicy :
      (m : Map) (k g : ℕ) → HasPolicy m → HasPolicy (remove_trigger_generation F S M m k g)
  unfolding remove_trigger_generation
  ends-HasPolicy m k g h x is =
      h x (ground (arith, LM.get-remove_if m k u.service_id (is_generation F S M g), is))

  pub reconciles-HasPolicy :
      (now : ℕ) (sched : Schedule S) (m : Map) (k g target : ℕ)
      → HasPolicy m
      → HasPolicy (reconcile_effective_concurrency F S M now sched m k g target).0
  unfolding reconcile_effective_concurrency
  reconciles-HasPolicy now sched m k g target h =
      elim (Option-cases (record_for_generation F S M m k g)) [
        | inl e ↦ rw e h
        | inr (r, e) ↦ rw e (
            found-HasPolicy m k g (reconcile F S now sched target r) r h e
              (reconcile-Stands now sched target r))
      ]

  reads_policy-HasPolicy :
      (now : ℕ) (m : Map) (k g : ℕ) (base : TriggerBasePolicy F S)
      → HasPolicy m
      → HasPolicy (effective_policy F S M now m k g base).0
  unfolding effective_policy
  reads_policy-HasPolicy now m k g base h =
      elim (Option-cases (record_for_generation F S M m k g)) [
        | inl e ↦ rw e h
        | inr (r, e) ↦ rw e (found-HasPolicy m k g _ r h e (take_expired-Stands now r))
      ]

  pub reads_limit-HasPolicy :
      (now : ℕ) (m : Map) (k g fallback : ℕ)
      → HasPolicy m
      → HasPolicy (effective_concurrency_limit F S M now m k g fallback).0
  unfolding effective_concurrency_limit
  reads_limit-HasPolicy now m k g fallback h =
      elim (Option-cases (record_for_generation F S M m k g)) [
        | inl e ↦ rw e h
        | inr (r, e) ↦ rw e (found-HasPolicy m k g _ r h e (take_expired-Stands now r))
      ]

  requests-HasPolicy :
      (now : ℕ) (m : Map) (k g : ℕ) (o : TriggerPolicyOverlay F) (m' : Map)
      → HasPolicy m
      → request_overlay F S M now m k g o ≡ ok m'
      → HasPolicy m'
  unfolding accept
  requests-HasPolicy now m k g o m' h e =
      let c = (request_overlay-ok_iff F S M now m k g o m').0 e in
      subst HasPolicy (sym c.result) (
        found-HasPolicy m k g _ c.found h c.is_found
          (record { same_generation = refl; same_scaling = refl }))

  clears-HasPolicy :
      (m : Map) (k g : ℕ) (reason : List ℕ) (m' : Map)
      → HasPolicy m
      → clear_overlay F S M m k g reason ≡ ok m'
      → HasPolicy m'
  unfolding clear
  clears-HasPolicy m k g reason m' h e =
      let c = clear_inversion F S M m k g reason m' e in
      subst HasPolicy (sym c.2)
        (found-HasPolicy m k g _ c.0 h c.1 (record { same_generation = refl; same_scaling = refl }))

  dispatches-HasPolicy :
      (m : Map) (k : ℕ) (done : List (Act S))
      → HasPolicy m
      → HasPolicy (run_acts F S M m k done (get m k))
  dispatches-HasPolicy m k done h = elim (Option-cases (get m k)) [
    | inl e ↦ rw e h
    | inr (r, e) ↦
        rw e (insert-HasPolicy m k _ r h e (record { same_generation = refl; same_scaling = refl }))
  ]

  after-HasPolicy :
      {E : Type 0} (m : Map) (r : Result Map E)
      → HasPolicy m
      → ((m' : Map) → r ≡ ok m' → HasPolicy m')
      → HasPolicy (after F S M m r)
  after-HasPolicy m (ok m') a h = h m' refl
  after-HasPolicy m (err e) a h = a

  pub step-HasPolicy :
      (m : Map) (op : Op F S M) → HasPolicy m → IsForeign op → HasPolicy (step F S M m op)
  unfolding step apply_effective_concurrency
  step-HasPolicy m (registers k g base gate) h f = registers-HasPolicy m k g base gate h f
  step-HasPolicy m (ends k g) h f = ends-HasPolicy m k g h
  step-HasPolicy m (requests now k g o) h f =
      after-HasPolicy m (request_overlay F S M now m k g o) h
        λ m' e. requests-HasPolicy now m k g o m' h e
  step-HasPolicy m (clears k g reason) h f =
      after-HasPolicy m (clear_overlay F S M m k g reason) h
        λ m' e. clears-HasPolicy m k g reason m' h e
  step-HasPolicy m (reads_policy now k g base) h f = reads_policy-HasPolicy now m k g base h
  step-HasPolicy m (reads_limit now k g fallback) h f = reads_limit-HasPolicy now m k g fallback h
  step-HasPolicy m (reconciles now sched k g target) h f =
      reconciles-HasPolicy now sched m k g target h
  step-HasPolicy m (applies now sched k g) h f = reconciles-HasPolicy now sched m k g _ h
  step-HasPolicy m (dispatches k done) h f = dispatches-HasPolicy m k done h
