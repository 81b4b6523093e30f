-- ===== src/OverlayStore/Lifecycle.antt =====
-- The life of an overlay: in force until it expires, and what reconciling then restores.
use mathlib.Core.Path.{subst}
use service_daemon_rs.External.Float.{F64}
use service_daemon_rs.External.Semaphore.{Semaphore}
use service_daemon_rs.External.Semaphore
use service_daemon_rs.Prelude.{ℕ, ◌-◌, ◌≡◌, max, min, Bool, true, false, none, some, [], arith, ◌+◌}
use service_daemon_rs.Policy.Overlay.{TriggerPolicyOverlay}
use service_daemon_rs.TriggerRunner.Gate.Balance.{grow-limit, grow-held, shrink_undisturbed}
use service_daemon_rs.OverlayStore.Limits.{
  IsSound, base_bounds, take_expired_overlay-IsSound, accept-IsSound, clear-IsSound,
}
use service_daemon_rs.OverlayStore.Record.{
  TriggerPolicyOverlayRecord, accept, clear, max_concurrency, initial_concurrency,
  take_expired_overlay, reconcile, reconcile_concurrency_limit, reconcile_taken, overlay_limit,
  is_expired,
}

module _ (F : F64) (S : Semaphore) (L : Semaphore.Laws S) where
  open S use {available_permits}

  -- Reconciling with nobody else at work sets the wanted limit, cut to the trigger's range, but keeps
  -- every permit in use.
  pub reconcile_concurrency_limit_exact :
      (wanted : ℕ) (r : TriggerPolicyOverlayRecord F S)
      → IsSound F S L r
      → let r' = reconcile_concurrency_limit F S [] wanted r in
        (r'.gate.current_limit ≡ max (max (min wanted (max_concurrency F S r.base)) 1) r.gate.held)
        × (r'.gate.held ≡ r.gate.held)
  unfolding reconcile_concurrency_limit
  reconcile_concurrency_limit_exact wanted r s =
      let desired = max (min wanted (max_concurrency F S r.base)) 1 in
      let current = r.gate.current_limit in
      let target = max desired (current - available_permits r.gate.semaphore) in
      let shrunk = shrink_undisturbed S L (current - target) r.gate in
      (
        ground (arith, s.balanced, grow-limit S L desired r.gate, shrunk),
        ground (arith, s.balanced, shrunk, grow-held S L desired r.gate),
      )

  -- A record whose overlay is gone, with the flag that asks for the base limit.
  abbrev cleared : TriggerPolicyOverlayRecord F S → Bool → TriggerPolicyOverlayRecord F S
  cleared r restore = record r { overlay = none; restore_base_on_next_reconcile = restore }

  cleared-IsSound :
      (r : TriggerPolicyOverlayRecord F S) (restore : Bool)
      → IsSound F S L r
      → IsSound F S L (cleared r restore)
  cleared-IsSound r restore s = record {
    base_valid = s.base_valid;
    balanced = s.balanced;
    positive = s.positive;
    within = s.within;
    overlay_within = tt;
  }

  taken_expired :
      (now limit : ℕ) (r : TriggerPolicyOverlayRecord F S)
      → is_expired F S now r ≡ true
      → overlay_limit F S r.overlay ≡ some limit
      → take_expired_overlay F S now r ≡ cleared r true
  unfolding take_expired_overlay
  taken_expired now limit r e l = ground arith

  restored :
      (r : TriggerPolicyOverlayRecord F S)
      → IsSound F S L r
      → let r' =
          reconcile_concurrency_limit F S [] (initial_concurrency F S r.base) (cleared r false) in
        r'.gate.current_limit ≡ max (initial_concurrency F S r.base) r.gate.held
  restored r s = omega (
    arith,
    reconcile_concurrency_limit_exact (initial_concurrency F S r.base) (cleared r false)
        (cleared-IsSound r false s),
    base_bounds F S L r.base s.base_valid,
  )

  -- The first reconciling after an overlay with a limit has expired sets the initial concurrency, or
  -- as many permits as are in use if those are more, whatever limit the caller asks for.
  reconcile-expired :
      (now limit base_target : ℕ) (r : TriggerPolicyOverlayRecord F S)
      → IsSound F S L r
      → is_expired F S now r ≡ true
      → overlay_limit F S r.overlay ≡ some limit
      → (reconcile F S now [] base_target r).gate.current_limit
        ≡ max (initial_concurrency F S r.base) r.gate.held
  unfolding reconcile
  reconcile-expired now limit base_target r s e l =
      rw (taken_expired now limit r e l) (restored r s)

  -- While an overlay with a limit is in force, reconciling a sound record undisturbed sets that limit, or as many permits as are
  -- in use if those are more.
  reconcile-active :
      (now limit base_target : ℕ) (r : TriggerPolicyOverlayRecord F S)
      → IsSound F S L r
      → is_expired F S now r ≡ false
      → overlay_limit F S r.overlay ≡ some limit
      → (reconcile F S now [] base_target r).gate.current_limit ≡ max limit r.gate.held
  unfolding reconcile
  reconcile-active now limit base_target r s e l = rw (kept, l) set
    where
      kept : take_expired_overlay F S now r ≡ r
      kept = unfold take_expired_overlay in ground arith

      set :
          (reconcile_concurrency_limit F S [] limit
            (record r { restore_base_on_next_reconcile = false })).gate.current_limit
          ≡ max limit r.gate.held
      set = omega (
        arith,
        reconcile_concurrency_limit_exact limit
            (record r { restore_base_on_next_reconcile = false })
            (record {
              base_valid = s.base_valid;
              balanced = s.balanced;
              positive = s.positive;
              within = s.within;
              overlay_within = s.overlay_within;
            }),
        rw l at s.overlay_within,
      )

  -- Reconciling undisturbed after a manual clear of an overlay with a limit sets the initial
  -- concurrency, or as many permits as are in use if those are more.
  pub reconcile-clear :
      (now limit base_target : ℕ) (r : TriggerPolicyOverlayRecord F S)
      → IsSound F S L r
      → overlay_limit F S r.overlay ≡ some limit
      → (reconcile F S now [] base_target (clear F S r)).gate.current_limit
        ≡ max (initial_concurrency F S r.base) r.gate.held
  unfolding reconcile
  reconcile-clear now limit base_target r s l = rw taken (restored r s)
    where
      taken : take_expired_overlay F S now (clear F S r) ≡ cleared r true
      taken = unfold take_expired_overlay clear in ground arith

  -- With no limit from an overlay and no pending restore, the limit that is there stays.
  unmoved :
      (t : TriggerPolicyOverlayRecord F S)
      → IsSound F S L t
      → overlay_limit F S t.overlay ≡ none
      → t.restore_base_on_next_reconcile ≡ false
      → (reconcile_taken F S [] t.gate.current_limit t).gate.current_limit ≡ t.gate.current_limit
  unmoved t s l f =
      rw (l, f)
        (omega (
          arith,
          s.balanced,
          reconcile_concurrency_limit_exact t.gate.current_limit
              (record t { restore_base_on_next_reconcile = false })
              (record {
                base_valid = s.base_valid;
                balanced = s.balanced;
                positive = s.positive;
                within = s.within;
                overlay_within = s.overlay_within;
              }),
        ))

  -- A request made before that reconciling, for an overlay without a limit, drops the pending restore:
  -- a later reconciling that asks for the limit it finds, as each dispatch does, leaves the cleared
  -- overlay's limit in place, before and after the new overlay expires.
  pub reconcile-clear-accept :
      (asked now : ℕ) (o : TriggerPolicyOverlay F) (r : TriggerPolicyOverlayRecord F S)
      → IsSound F S L r
      → o.concurrency_limit ≡ none
      → let r' = accept F S (asked + o.ttl) o (clear F S r) in
        (reconcile F S now [] r'.gate.current_limit r').gate.current_limit ≡ r.gate.current_limit
  unfolding reconcile accept clear
  reconcile-clear-accept asked now o r s none_asked =
      subst (λ (n : ℕ). (reconcile_taken F S [] n t).gate.current_limit ≡ n) same
        (unmoved t sound (unlimited none_asked) (no_restore none_asked))
    where
      a : TriggerPolicyOverlayRecord F S
      a = accept F S (asked + o.ttl) o (clear F S r)

      t : TriggerPolicyOverlayRecord F S
      t = take_expired_overlay F S now a

      sound : IsSound F S L t
      sound = take_expired_overlay-IsSound F S L now a (
          accept-IsSound F S L (asked + o.ttl) o (clear F S r) (clear-IsSound F S L r s)
            (rw none_asked tt))

      same : t.gate.current_limit ≡ a.gate.current_limit
      same = unfold take_expired_overlay in ground arith

      unlimited : o.concurrency_limit ≡ none → overlay_limit F S t.overlay ≡ none
      unlimited h = unfold take_expired_overlay accept in ground arith

      no_restore : o.concurrency_limit ≡ none → t.restore_base_on_next_reconcile ≡ false
      no_restore h = unfold take_expired_overlay accept clear in ground arith
