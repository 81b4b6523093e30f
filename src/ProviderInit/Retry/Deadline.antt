-- ===== src/ProviderInit/Retry/Deadline.antt =====
-- When the attempts of `init_fallible_with_source` begin, when its sleeps end, and that it ends.
use service_daemon_rs.External.Float.{F64}
use service_daemon_rs.Prelude.{
  ℕ, ◌+◌, ◌≤◌, ◌<◌, ◌≡◌, refl, true, List, [], ◌∷◌, length, All, arith, is_some, inl, inr,
  Option-cases, ok, err, lt_or_le, ap,
}
use service_daemon_rs.ProviderInit.{ProviderError}
use service_daemon_rs.ProviderInit.Retry.{
  Attempt, InitCall, InitLoop, deadline, Polled, fresh_loop, on_retryable, on_polled, round,
  init_loop, init_fallible_with_source,
}
use service_daemon_rs.ProviderInit.Retry.Rule.{
  loop_rule, loop_goes_on, loop_ends, round-late, round-early,
}

module _ (F : F64) (T : Type 0) (c : InitCall F T) where
  pub record IsPunctual (s : InitLoop F T) : Type 0 where
    pub begun : All (λ t. t < deadline F T c) s.calls
    pub slept : All (λ sleep. sleep.0 + sleep.1 ≤ deadline F T c) s.sleeps

  retryable-IsPunctual :
      (a : Attempt F T) (message : List ℕ) (s : InitLoop F T)
      → IsPunctual s
      → IsPunctual (on_retryable F T c a message s).0
  unfolding on_retryable
  retryable-IsPunctual a message s p = record {
    begun = ground (arith, p.begun);
    slept = ground (arith, p.slept);
  }

  polled-IsPunctual :
      (a : Attempt F T) (polled : Polled T) (s : InitLoop F T)
      → IsPunctual s
      → IsPunctual (on_polled F T c a polled s).0
  unfolding on_polled
  polled-IsPunctual a Polled.token_cancelled s p = p
  polled-IsPunctual a Polled.attempt_timed_out s p = p
  polled-IsPunctual a (Polled.finished (ok value)) s p = p
  polled-IsPunctual a (Polled.finished (err (ProviderError.fatal message))) s p = p
  polled-IsPunctual a (Polled.finished (err (ProviderError.retryable message))) s p =
      retryable-IsPunctual a message s p

  round-IsPunctual :
      (a : Attempt F T) (s : InitLoop F T) → IsPunctual s → IsPunctual (round F T c a s).0
  round-IsPunctual a s p = elim (lt_or_le a.now (deadline F T c)) [
    | inl early ↦ rw (round-early F T c a s early) (
        polled-IsPunctual a a.polled (record s { calls = a.now ∷ s.calls })
          (record { begun = (early, p.begun); slept = p.slept }))
    | inr late ↦ rw (round-late F T c a s late) p
  ]

  -- Whatever the provider's code does and however long it takes, no attempt begins at or after the
  -- deadline, the start plus `provider_init_timeout`, and no sleep between attempts is asked to last
  -- beyond it.
  pub init_fallible-IsPunctual :
      (attempts : List (Attempt F T)) → IsPunctual (init_fallible_with_source F T c attempts).0
  unfolding init_fallible_with_source
  init_fallible-IsPunctual attempts =
      loop_rule F T c (λ s outcome. IsPunctual s) round-IsPunctual attempts (fresh_loop F T c)
        (record { begun = tt; slept = tt })

  -- Each round begins later than the one before.
  abbrev pub Advancing : ℕ → List (Attempt F T) → Type 0
  Advancing t [] = Unit
  Advancing t (a ∷ rest) = (t ≤ a.now) × Advancing (a.now + 1) rest

  loop-Advancing :
      (t : ℕ) (a : Attempt F T) (rest : List (Attempt F T)) (s : InitLoop F T)
      → Advancing t (a ∷ rest)
      → deadline F T c ≤ t + length rest
      → is_some (init_loop F T c (a ∷ rest) s).1 ≡ true
  loop-Advancing t a [] s h l =
      let ends = round-late F T c a s (omega (arith, h.0)) in
      rw (loop_ends F T c a [] s (ap (λ r. r.1) ends)) refl
  loop-Advancing t a (b ∷ rest) s h l = elim (Option-cases (round F T c a s).1) [
    | inl m ↦
        rw (loop_goes_on F T c a (b ∷ rest) s m)
          (loop-Advancing (a.now + 1) b rest (round F T c a s).0 h.1 (omega (arith, h.0)))
    | inr (o, m) ↦ rw (loop_ends F T c a (b ∷ rest) s m) refl
  ]

  -- The call returns: when each round begins at least a nanosecond after the one before, no more
  -- rounds are begun than `provider_init_timeout` has nanoseconds, and one more.
  pub init_fallible_terminates :
      (attempts : List (Attempt F T))
      → Advancing c.start attempts
      → c.policy.provider_init_timeout < length attempts
      → is_some (init_fallible_with_source F T c attempts).1 ≡ true
  unfolding init_fallible_with_source
  init_fallible_terminates [] h l = absurd (omega arith)
  init_fallible_terminates (a ∷ rest) h l =
      loop-Advancing c.start a rest (fresh_loop F T c) h (omega arith)
