-- ===== src/TriggerRunner/Retry.antt =====
-- core/trigger_runner/interceptors.rs: `record_retry_failure` and `RetryInterceptor`. The calls of the
-- handler, with what surrounds each of them, are a list; the interceptor takes them one by one.
pub mod Limit
use service_daemon_rs.External.Float.{F64}
use service_daemon_rs.Prelude.{
  ℕ, ◌+◌, Bool, true, false, Option, none, some, List, [], ◌∷◌, leb, map_or, if◌then◌else◌, Result,
  ok, err,
}
use service_daemon_rs.Policy.Restart.{RestartPolicy}
use service_daemon_rs.Policy.Backoff.{BackoffController}
use service_daemon_rs.Policy.Backoff
use service_daemon_rs.RuntimeFacts.{TriggerFacts, record_retry}
use service_daemon_rs.Supervisor.Exit.{TriggerDispatchFailureKind, handler_retry_exhausted}

module _ (F : F64) where
  open F use {Num}

  -- One call of the handler: its error if it fails, the clock then, whether a shutdown or a reload is
  -- under way, whether the sleep ends by itself, and the random draw of the backoff.
  pub record Attempt : Type 0 where
    pub error : Option (List ℕ)
    pub wall : ℕ
    pub is_shutdown : Bool
    pub slept : Bool
    pub draw : Num → Num → Num

  -- `calls` counts the calls of the handler. No code reads it.
  pub record Run : Type 0 where
    pub backoff : BackoffController F
    pub runtime_facts : Option TriggerFacts
    pub calls : ℕ

  -- What the interceptor returns: `Ok(())`, or a `TriggerDispatchFailure` of this kind.
  abbrev pub Verdict : Type 0
  Verdict = Result (Unit {0}) TriggerDispatchFailureKind

  -- `record_retry_failure`, and whether to go on.
  unfoldable pub record_retry_failure : Attempt → List ℕ → Run → Run × Bool
  record_retry_failure a message r = (
    record r {
      backoff = Backoff.record_failure F a.draw r.backoff;
      runtime_facts = map_or r.runtime_facts none λ facts. some (record_retry a.wall message facts);
    },
    if a.is_shutdown then false else a.slept,
  )

  -- One call with the handling of its error; `none` is to go on.
  unfoldable pub attempt : Attempt → Run → Run × Option Verdict
  attempt a r =
      let called = record r { calls = r.calls + 1 } in
      map_or a.error (called, some (ok tt))
        λ message.
          let (r', proceeds) = record_retry_failure a message called in
          (r', if proceeds then none else some (ok tt))

  -- `trigger_max_retries.is_some_and(|max| backoff.attempt_count() >= max)`.
  unfoldable pub is_exhausted : Run → Bool
  is_exhausted r =
      map_or r.backoff.policy.trigger_max_retries false λ limit. leb limit r.backoff.attempt_count

  -- The loop of the later attempts. A verdict of `none` is a run that is still going on.
  unfoldable pub retry_loop : List Attempt → Run → Run × Option Verdict
  retry_loop [] r = if is_exhausted r then (r, some (err handler_retry_exhausted)) else (r, none)
  retry_loop (a ∷ rest) r = elim (is_exhausted r) [
    | true ↦ (r, some (err handler_retry_exhausted))
    | false ↦ elim (attempt a r).1 [
      | some v ↦ ((attempt a r).0, some v)
      | none ↦ retry_loop rest (attempt a r).0
    ]
  ]

  abbrev pub fresh_run : RestartPolicy Num → Option TriggerFacts → Run
  fresh_run retry_policy runtime_facts = record {
    backoff = Backoff.new F retry_policy;
    runtime_facts = runtime_facts;
    calls = 0;
  }

  -- `RetryInterceptor::intercept`. The first call is made whatever the limit is.
  unfoldable pub intercept :
      RestartPolicy Num → Option TriggerFacts → List Attempt → Run × Option Verdict
  intercept retry_policy runtime_facts [] = (fresh_run retry_policy runtime_facts, none)
  intercept retry_policy runtime_facts (a ∷ rest) =
      let r = attempt a (fresh_run retry_policy runtime_facts) in
      elim r.1 [ some v ↦ (r.0, some v) | none ↦ retry_loop rest r.0 ]
