-- ===== src/ProviderInit/Retry/Report.antt =====
-- What a failure of `init_fallible_with_source` tells of the retryable errors before it.
use service_daemon_rs.External.Float.{F64}
use service_daemon_rs.Prelude.{
  ℕ, ◌+◌, ◌-◌, ◌≡◌, refl, ap, sym, min, Bool, true, false, Option, none, some, List, [], ◌∷◌, ◌++◌,
  length, length-append, arith, ok, err, inl, inr, lt_or_le, unwrap_or, if◌then◌else◌, is_some,
  Bool, leb,
}
use service_daemon_rs.Prelude.Words.{saturating_add, u32_max}
use service_daemon_rs.Policy.Backoff
use service_daemon_rs.Prelude.Recent.{last_n, push_recent-last_n}
use service_daemon_rs.ProviderInit.{
  ProviderError, ProviderInitError, ProviderInitFailure, ProviderInitSourceKind, cancelled_failure,
}
use service_daemon_rs.ProviderInit.Retry.{
  Attempt, InitCall, InitLoop, deadline, Outcome, Polled, fresh_loop, on_retryable, on_polled,
  round, init_fallible_with_source, did_not_complete, deadline_failure, push_recent_retryable_error,
  provider_init_timeout_failure,
}
use service_daemon_rs.ProviderInit.Retry.Rule.{loop_rule, round-early, round-late}

abbrev pub last {ℓ} : {A : Type ℓ} → List A → Option A
last [] = none
last (x ∷ []) = some x
last (x ∷ y ∷ xs) = last (y ∷ xs)

last-append {ℓ} : {A : Type ℓ} (xs : List A) (x : A) → last (xs ++ (x ∷ [])) ≡ some x
last-append [] x = refl
last-append (y ∷ []) x = refl
last-append (y ∷ z ∷ xs) x = last-append (z ∷ xs) x

module _ (F : F64) (T : Type 0) (c : InitCall F T) where
  -- The variables of the loop, told from the errors alone.
  pub record IsTracked (s : InitLoop F T) : Type 0 where
    pub counted : s.retry_attempts ≡ min (length s.errors) u32_max
    pub kept : s.recent_retryable_errors ≡ last_n 4 s.errors
    pub newest : s.last_retryable_error ≡ last s.errors

  abbrev timeout_source : List (List ℕ) → ProviderInitSourceKind
  timeout_source errors =
      if is_some (last errors) then c.retryable_timeout_source else ProviderInitSourceKind.timeout

  -- What a timeout after these errors tells.
  pub record IsTimeoutOf (errors : List (List ℕ)) (f : ProviderInitFailure) : Type 0 where
    pub told :
        f.error
        ≡ ProviderInitError.timeout c.provider c.policy.provider_init_timeout
            (unwrap_or (last errors) did_not_complete)
    pub blamed : f.source ≡ timeout_source errors
    pub elapsed : ℕ
    pub delay : Option ℕ
    pub detailed :
        f.retry_diagnostics
        ≡ some record {
          attempts = min (length errors) u32_max;
          elapsed = elapsed;
          last_delay = delay;
          recent_errors = last_n 4 errors;
        }

  -- What any outcome tells.
  abbrev pub Tells : List (List ℕ) → Option (Outcome F T) → Type 0
  Tells errors none = Unit
  Tells errors (some (ok value)) = Unit
  Tells errors (some (err f)) = elim f.error [
    | ProviderInitError.fatal provider message ↦
        (provider ≡ c.provider) × (f.source ≡ c.fatal_source) × (f.retry_diagnostics ≡ none)
    | ProviderInitError.timeout provider limit last_error ↦ IsTimeoutOf errors f
    | ProviderInitError.cancelled provider ↦
        (provider ≡ c.provider)
        × (f.source ≡ ProviderInitSourceKind.cancelled)
        × (f.retry_diagnostics ≡ none)
  ]

  pub record IsTold (s : InitLoop F T) (outcome : Option (Outcome F T)) : Type 0 where
    pub tracked : IsTracked s
    pub tells : Tells s.errors outcome

  push-IsTracked :
      (message : List ℕ) (s : InitLoop F T)
      → IsTracked s
      → IsTracked record s {
        retry_attempts = min (s.retry_attempts + 1) u32_max;
        last_retryable_error = some message;
        recent_retryable_errors = push_recent_retryable_error message s.recent_retryable_errors;
        errors = s.errors ++ (message ∷ []);
      }
  unfolding push_recent_retryable_error
  push-IsTracked message s t = record {
    counted = omega (arith, t.counted, length-append s.errors (message ∷ []));
    kept = rw t.kept (push_recent-last_n 4 message s.errors (omega arith));
    newest = sym (last-append s.errors message);
  }

  timeout-Tells :
      (a : Attempt F T) (s : InitLoop F T) (last_error : List ℕ) (source : ProviderInitSourceKind)
      → IsTracked s
      → last_error ≡ unwrap_or (last s.errors) did_not_complete
      → source ≡ timeout_source s.errors
      → IsTimeoutOf s.errors (provider_init_timeout_failure F T c a s last_error source)
  unfolding provider_init_timeout_failure
  timeout-Tells a s last_error source t told blamed = record {
    told = ap (ProviderInitError.timeout c.provider c.policy.provider_init_timeout) told;
    blamed = blamed;
    elapsed = a.reported_at - c.start;
    delay = s.last_retry_delay;
    detailed = rw (t.counted, t.kept) refl;
  }

  deadline-IsTold :
      (a : Attempt F T) (s : InitLoop F T)
      → IsTracked s
      → IsTold s (some (err (deadline_failure F T c a s)))
  unfolding deadline_failure provider_init_timeout_failure
  deadline-IsTold a s t = record {
    tracked = t;
    tells = timeout-Tells a s _ _ t (rw t.newest refl) (rw t.newest refl);
  }

  if-IsTold :
      (b : Bool) (x y : InitLoop F T × Option (Outcome F T))
      → IsTold x.0 x.1
      → IsTold y.0 y.1
      → IsTold (if b then x else y).0 (if b then x else y).1
  if-IsTold true x y p q = p
  if-IsTold false x y p q = q

  retryable-IsTold :
      (a : Attempt F T) (message : List ℕ) (s : InitLoop F T)
      → IsTracked s
      → IsTold (on_retryable F T c a message s).0 (on_retryable F T c a message s).1
  unfolding on_retryable provider_init_timeout_failure
  retryable-IsTold a message s given =
      let pushed = push-IsTracked message s given in
      let newest = last-append s.errors message in
      let t = record s {
        retry_attempts = saturating_add u32_max s.retry_attempts 1;
        last_retryable_error = some message;
        recent_retryable_errors = push_recent_retryable_error message s.recent_retryable_errors;
        errors = s.errors ++ (message ∷ []);
      } in
      let sleep_for = min s.backoff.current_delay (deadline F T c - a.failed_at) in
      let u = record t {
        last_retry_delay = some sleep_for;
        sleeps = (a.failed_at, sleep_for) ∷ s.sleeps;
      } in
      let woken = record u { backoff = Backoff.record_failure F a.draw s.backoff } in
      let failure = provider_init_timeout_failure F T c a t message c.retryable_timeout_source in
      if-IsTold (leb (deadline F T c) a.failed_at) (t, some (err failure))
        (if a.slept then (woken, none) else (u, some (err (cancelled_failure c.provider))))
        (record {
          tracked = pushed;
          tells =
              timeout-Tells a t message c.retryable_timeout_source pushed (rw newest refl)
                (rw newest refl);
        })
        (if-IsTold a.slept (woken, none) (u, some (err (cancelled_failure c.provider)))
          (record {
            tracked = record {
              counted = pushed.counted;
              kept = pushed.kept;
              newest = pushed.newest;
            };
            tells = tt;
          })
          (record {
            tracked = record {
              counted = pushed.counted;
              kept = pushed.kept;
              newest = pushed.newest;
            };
            tells = (refl, refl, refl);
          }))

  polled-IsTold :
      (a : Attempt F T) (polled : Polled T) (s : InitLoop F T)
      → IsTracked s
      → IsTold (on_polled F T c a polled s).0 (on_polled F T c a polled s).1
  unfolding on_polled
  polled-IsTold a Polled.token_cancelled s t = record { tracked = t; tells = (refl, refl, refl) }
  polled-IsTold a Polled.attempt_timed_out s t = deadline-IsTold a s t
  polled-IsTold a (Polled.finished (ok value)) s t = record { tracked = t; tells = tt }
  polled-IsTold a (Polled.finished (err (ProviderError.fatal message))) s t = record {
    tracked = t;
    tells = (refl, refl, refl);
  }
  polled-IsTold a (Polled.finished (err (ProviderError.retryable message))) s t =
      retryable-IsTold a message s t

  round-IsTold :
      (a : Attempt F T) (s : InitLoop F T)
      → IsTold s none
      → IsTold (round F T c a s).0 (round F T c a s).1
  round-IsTold a s told = elim (lt_or_le a.now (deadline F T c)) [
    | inl early ↦ rw (round-early F T c a s early) (
        polled-IsTold a a.polled (record s { calls = a.now ∷ s.calls })
          (record { counted = tracked.counted; kept = tracked.kept; newest = tracked.newest }))
    | inr late ↦ rw (round-late F T c a s late) (deadline-IsTold a s tracked)
  ]
    where
      open told use {tracked}

  -- At every point of the call its variables follow from the retryable errors so far: the count of
  -- them, up to what a `u32` holds, the last four of them and the newest. A failure tells just these.
  -- A timeout names the provider and the configured limit, carries the newest error, or the text that
  -- says that none was seen, blames `Timeout` without an error and the caller's source with one, and
  -- gives the count and the last four. A fatal error has the caller's source and a cancellation its
  -- own, both without details of the retries.
  pub init_fallible-IsTold :
      (attempts : List (Attempt F T))
      → IsTold
          (init_fallible_with_source F T c attempts).0
          (init_fallible_with_source F T c attempts).1
  unfolding init_fallible_with_source
  init_fallible-IsTold attempts =
      loop_rule F T c IsTold round-IsTold attempts (fresh_loop F T c)
        (record { tracked = record { counted = refl; kept = refl; newest = refl }; tells = tt })
