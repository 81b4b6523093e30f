-- ===== src/ProviderInit/Retry.antt =====
-- core/provider_init.rs: `init_fallible_with_source`. The rounds of its loop, with what surrounds each
-- of them, are a list; the loop takes them one by one. Times are readings of the monotonic clock, in
-- nanoseconds, and `start + timeout` is taken to be one.
pub mod Rule
pub mod Deadline
pub mod Report
pub mod Settle
use service_daemon_rs.External.Float.{F64}
use service_daemon_rs.Prelude.{
  ℕ, ◌+◌, ◌-◌, min, Bool, Option, none, some, List, [], ◌∷◌, ◌++◌, leb, is_some, unwrap_or,
  if◌then◌else◌, Result, ok, err,
}
use service_daemon_rs.Prelude.Words.{saturating_add, u32_max}
use service_daemon_rs.Prelude.Recent.{push_recent}
use service_daemon_rs.Policy.Restart.{RestartPolicy}
use service_daemon_rs.Policy.Backoff.{BackoffController}
use service_daemon_rs.Policy.Backoff
use service_daemon_rs.ProviderInit.{
  ProviderError, ProviderInitError, ProviderInitSourceKind, ProviderInitFailure, fatal_failure,
  cancelled_failure,
}

-- "provider initialization attempt did not complete before timeout".
abbrev pub did_not_complete : List ℕ
did_not_complete =
    112 ∷ 114 ∷ 111 ∷ 118 ∷ 105 ∷ 100 ∷ 101 ∷ 114 ∷ 32 ∷ 105 ∷ 110 ∷ 105 ∷ 116 ∷ 105 ∷ 97 ∷ 108
    ∷ 105 ∷ 122 ∷ 97 ∷ 116 ∷ 105 ∷ 111 ∷ 110 ∷ 32 ∷ 97 ∷ 116 ∷ 116 ∷ 101 ∷ 109 ∷ 112 ∷ 116 ∷ 32
    ∷ 100 ∷ 105 ∷ 100 ∷ 32 ∷ 110 ∷ 111 ∷ 116 ∷ 32 ∷ 99 ∷ 111 ∷ 109 ∷ 112 ∷ 108 ∷ 101 ∷ 116 ∷ 101
    ∷ 32 ∷ 98 ∷ 101 ∷ 102 ∷ 111 ∷ 114 ∷ 101 ∷ 32 ∷ 116 ∷ 105 ∷ 109 ∷ 101 ∷ 111 ∷ 117 ∷ 116 ∷ []

-- `PROVIDER_INIT_RECENT_ERROR_LIMIT`.
abbrev pub recent_error_limit : ℕ
recent_error_limit = 4

unfoldable pub push_recent_retryable_error : List ℕ → List (List ℕ) → List (List ℕ)
push_recent_retryable_error message recent = push_recent recent_error_limit message recent

abbrev pub provider_init_timeout_source :
    Option (List ℕ) → ProviderInitSourceKind → ProviderInitSourceKind
provider_init_timeout_source last_retryable_error retryable_timeout_source =
    if is_some last_retryable_error
    then retryable_timeout_source
    else ProviderInitSourceKind.timeout

-- What ends the `select!` of one attempt: the token, the deadline, or the provider's own code.
pub data Polled (T : Type 0) : Type 0 where
  token_cancelled attempt_timed_out : Polled T
  finished : Result T ProviderError → Polled T

module _ (F : F64) (T : Type 0) where
  open F use {Num}

  -- One round: the clock at its top, the end of the attempt, the clock after an error, whether the
  -- sleep ends by itself, the clock when a timeout is reported, and the random draw of the backoff.
  pub record Attempt : Type 0 where
    pub now : ℕ
    pub polled : Polled T
    pub failed_at : ℕ
    pub slept : Bool
    pub reported_at : ℕ
    pub draw : Num → Num → Num

  -- The arguments of the call, with the clock when it starts.
  pub record InitCall : Type 0 where
    pub provider : List ℕ
    pub policy : RestartPolicy Num
    pub fatal_source : ProviderInitSourceKind
    pub retryable_timeout_source : ProviderInitSourceKind
    pub start : ℕ

  abbrev pub deadline : InitCall → ℕ
  deadline c = c.start + c.policy.provider_init_timeout

  -- The variables of the loop. `errors`, `sleeps` and `calls` are the retryable errors so far, when
  -- each sleep begins with how long it is to last, and when each attempt begins. No code reads them.
  pub record InitLoop : Type 0 where
    pub last_retryable_error : Option (List ℕ)
    pub retry_attempts : ℕ
    pub last_retry_delay : Option ℕ
    pub recent_retryable_errors : List (List ℕ)
    pub backoff : BackoffController F
    pub errors : List (List ℕ)
    pub sleeps : List (ℕ × ℕ)
    pub calls : List ℕ

  abbrev pub Outcome : Type 0
  Outcome = Result T ProviderInitFailure

  abbrev pub fresh_loop : InitCall → InitLoop
  fresh_loop c = record {
    last_retryable_error = none;
    retry_attempts = 0;
    last_retry_delay = none;
    recent_retryable_errors = [];
    backoff = Backoff.new F c.policy;
    errors = [];
    sleeps = [];
    calls = [];
  }

  -- `provider_init_timeout_failure`, with the facts of the loop.
  unfoldable pub provider_init_timeout_failure :
      InitCall → Attempt → InitLoop → List ℕ → ProviderInitSourceKind → ProviderInitFailure
  provider_init_timeout_failure c a s last_error source = record {
    source = source;
    error = ProviderInitError.timeout c.provider c.policy.provider_init_timeout last_error;
    retry_diagnostics = some record {
      attempts = s.retry_attempts;
      elapsed = a.reported_at - c.start;
      last_delay = s.last_retry_delay;
      recent_errors = s.recent_retryable_errors;
    };
  }

  -- The failure of a deadline that passes while no error is at hand.
  unfoldable pub deadline_failure : InitCall → Attempt → InitLoop → ProviderInitFailure
  unfolding provider_init_timeout_failure
  deadline_failure c a s =
      provider_init_timeout_failure c a s (unwrap_or s.last_retryable_error did_not_complete)
        (provider_init_timeout_source s.last_retryable_error c.retryable_timeout_source)

  -- The branch of a retryable error.
  unfoldable pub on_retryable : InitCall → Attempt → List ℕ → InitLoop → InitLoop × Option Outcome
  unfolding provider_init_timeout_failure push_recent_retryable_error Backoff.record_failure
  on_retryable c a message s =
      let t = record s {
        retry_attempts = saturating_add u32_max s.retry_attempts 1;
        last_retryable_error = some message;
        recent_retryable_errors = push_recent_retryable_error message s.recent_retryable_errors;
        errors = s.errors ++ (message ∷ []);
      } in
      let sleep_for = min s.backoff.current_delay (deadline c - a.failed_at) in
      let u = record t {
        last_retry_delay = some sleep_for;
        sleeps = (a.failed_at, sleep_for) ∷ s.sleeps;
      } in
      if leb (deadline c) a.failed_at
      then (t, some (err (provider_init_timeout_failure c a t message c.retryable_timeout_source)))
      else if a.slept
      then (record u { backoff = Backoff.record_failure F a.draw s.backoff }, none)
      else (u, some (err (cancelled_failure c.provider)))

  -- The end of an attempt.
  unfoldable pub on_polled : InitCall → Attempt → Polled T → InitLoop → InitLoop × Option Outcome
  unfolding on_retryable deadline_failure
  on_polled c a token_cancelled s = (s, some (err (cancelled_failure c.provider)))
  on_polled c a attempt_timed_out s = (s, some (err (deadline_failure c a s)))
  on_polled c a (finished (ok value)) s = (s, some (ok value))
  on_polled c a (finished (err (ProviderError.fatal message))) s =
      (s, some (err (fatal_failure c.provider message c.fatal_source)))
  on_polled c a (finished (err (ProviderError.retryable message))) s = on_retryable c a message s

  unfoldable pub round : InitCall → Attempt → InitLoop → InitLoop × Option Outcome
  unfolding deadline_failure on_polled
  round c a s =
      if leb (deadline c) a.now
      then (s, some (err (deadline_failure c a s)))
      else on_polled c a a.polled (record s { calls = a.now ∷ s.calls })

  -- The loop. An outcome of `none` is a call that is still going on.
  unfoldable pub init_loop : InitCall → List Attempt → InitLoop → InitLoop × Option Outcome
  init_loop c [] s = (s, none)
  init_loop c (a ∷ rest) s = elim (round c a s).1 [
    | some outcome ↦ ((round c a s).0, some outcome)
    | none ↦ init_loop c rest (round c a s).0
  ]

  unfoldable pub init_fallible_with_source : InitCall → List Attempt → InitLoop × Option Outcome
  unfolding init_loop
  init_fallible_with_source c attempts = init_loop c attempts (fresh_loop c)
