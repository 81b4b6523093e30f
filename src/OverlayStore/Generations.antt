-- ===== src/OverlayStore/Generations.antt =====
-- The store by generation: what a trigger reads back, and that callers of another generation can
-- neither read nor change a record.
use service_daemon_rs.External.Float.{F64}
use service_daemon_rs.External.Semaphore.{Semaphore}
use service_daemon_rs.External.ServiceMap.{ServiceMap, Laws}
use service_daemon_rs.Prelude.{
  ℕ, ◌+◌, ◌≡◌, ◌≢◌, refl, max, none, some, List, ltb, arith, unwrap_or, ok, if◌then◌else◌, ◌∙◌, ap,
}
use service_daemon_rs.Policy.Overlay.{TriggerPolicyOverlay}
use service_daemon_rs.TriggerRunner.Gate.{Schedule}
use service_daemon_rs.OverlayStore.Record.{
  TriggerBasePolicy, TriggerPolicyOverlayRecord, accept, take_expired_overlay, effective,
}
use service_daemon_rs.OverlayStore.Requests.{Accepted, request_overlay-ok_iff, clear_inversion}
use service_daemon_rs.OverlayStore.{
  record_for_generation, request_overlay, clear_overlay, effective_policy,
  reconcile_effective_concurrency, remove_trigger_generation, is_generation,
}

module _ (F : F64) (S : Semaphore) (M : ServiceMap (TriggerPolicyOverlayRecord F S))
    (LM : Laws M) where
  open M use {Map, get, insert, remove_if}

  record_for-insert :
      (m : Map) (k g : ℕ) (r q : TriggerPolicyOverlayRecord F S)
      → record_for_generation F S M m k g ≡ some r
      → q.generation ≡ r.generation
      → record_for_generation F S M (insert m k q) k g ≡ some q
  record_for-insert m k g r q e same = ground (arith, LM.get-insert m k k q)

  effective-accept :
      (now later : ℕ) (o : TriggerPolicyOverlay F) (r : TriggerPolicyOverlayRecord F S)
      → effective F S (take_expired_overlay F S later (accept F S (now + o.ttl) o r)) ≡ (
          if ltb later (now + o.ttl)
          then record {
            restart_policy = unwrap_or o.retry_policy r.base.restart_policy;
            dispatch_timeout = o.dispatch_timeout;
          }
          else record { restart_policy = r.base.restart_policy; dispatch_timeout = none })
  unfolding take_expired_overlay accept
  effective-accept now later o r = ground arith

  -- After a successful request the trigger's dispatches run under the overlay's retry policy and
  -- timeout until its time to live is over, and under the base policy with no timeout from then on.
  pub effective_policy-request :
      (now later : ℕ) (m m' : Map) (k g : ℕ) (o : TriggerPolicyOverlay F)
      (r : TriggerPolicyOverlayRecord F S) (fallback : TriggerBasePolicy F S)
      → record_for_generation F S M m k g ≡ some r
      → request_overlay F S M now m k g o ≡ ok m'
      → (effective_policy F S M later m' k g fallback).1 ≡ (
          if ltb later (now + o.ttl)
          then record {
            restart_policy = unwrap_or o.retry_policy r.base.restart_policy;
            dispatch_timeout = o.dispatch_timeout;
          }
          else record { restart_policy = r.base.restart_policy; dispatch_timeout = none })
  unfolding effective_policy
  effective_policy-request now later m m' k g o r fallback e h =
      rw
        (result, record_for-insert m k g r (accept F S (now + o.ttl) o r) e (unfold accept in refl))
        (effective-accept now later o r)
    where
      c : Accepted F S M now m k g o m'
      c = (request_overlay-ok_iff F S M now m k g o m').0 h

      same : c.found ≡ r
      same = cc (c.is_found, e)

      result : m' ≡ insert m k (accept F S (now + o.ttl) o r)
      result = c.result ∙ ap (λ q. insert m k (accept F S (now + o.ttl) o q)) same

  -- A caller of a generation that is not the record's gets nothing done: its requests and clears fail,
  -- it reads its own fallback, and reconciling and removal leave every record as it was.
  pub other_generation :
      (now : ℕ) (sched : Schedule S) (m : Map) (k g target : ℕ) (r : TriggerPolicyOverlayRecord F S)
      (o : TriggerPolicyOverlay F) (reason : List ℕ) (fallback : TriggerBasePolicy F S)
      → get m k ≡ some r
      → g ≢ r.generation
      → ((m' : Map) → request_overlay F S M now m k g o ≢ ok m')
        × ((m' : Map) → clear_overlay F S M m k g reason ≢ ok m')
        × (effective_policy F S M now m k g fallback
            ≡ (m, record { restart_policy = fallback.restart_policy; dispatch_timeout = none }))
        × (reconcile_effective_concurrency F S M now sched m k g target ≡ (m, max target 1))
        × ((j : ℕ) → get (remove_trigger_generation F S M m k g) j ≡ get m j)
  unfolding effective_policy reconcile_effective_concurrency remove_trigger_generation
  other_generation now sched m k g target r o reason fallback e ne = (
    λ m' h. cc (((request_overlay-ok_iff F S M now m k g o m').0 h).is_found, missing),
    λ m' h. cc ((clear_inversion F S M m k g reason m' h).1, missing),
    rw missing refl,
    rw missing refl,
    λ j. ground (arith, LM.get-remove_if m k j (is_generation F S M g), missing),
  )
    where
      missing : record_for_generation F S M m k g ≡ none
      missing = ground arith
