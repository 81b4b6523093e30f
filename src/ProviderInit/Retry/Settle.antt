-- ===== src/ProviderInit/Retry/Settle.antt =====
-- What a call of `init_fallible_with_source` returns after attempts that are retried.
use service_daemon_rs.External.Float.{F64}
use service_daemon_rs.Prelude.{ℕ, ◌<◌, ◌≡◌, true, Option, none, some, List, ok, err}
use service_daemon_rs.ProviderInit.{ProviderError, fatal_failure, cancelled_failure}
use service_daemon_rs.ProviderInit.Retry.{Attempt, InitCall, deadline, Outcome, Polled}

module _ (F : F64) (T : Type 0) (c : InitCall F T) where
  -- A round whose attempt fails with a retryable error in time, and whose sleep ends by itself.
  pub record Retried (a : Attempt F T) : Type 0 where
    pub message : List ℕ
    pub failed : a.polled ≡ Polled.finished (err (ProviderError.retryable message))
    pub early : a.now < deadline F T c
    pub in_time : a.failed_at < deadline F T c
    pub woke : a.slept ≡ true

  -- The outcome of an attempt that is not retried and no timeout.
  abbrev pub settled : Polled T → Option (Outcome F T)
  settled Polled.token_cancelled = some (err (cancelled_failure c.provider))
  settled Polled.attempt_timed_out = none
  settled (Polled.finished (ok value)) = some (ok value)
  settled (Polled.finished (err (ProviderError.fatal message))) =
      some (err (fatal_failure c.provider message c.fatal_source))
  settled (Polled.finished (err (ProviderError.retryable message))) = none
