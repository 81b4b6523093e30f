-- ===== src/ProviderInit/Retry/Rule.antt =====
-- What holds of every end of the loop of `init_fallible_with_source`.
use service_daemon_rs.External.Float.{F64}
use service_daemon_rs.Prelude.{
  ◌≡◌, Option, none, some, List, [], ◌∷◌, inl, inr, arith, Option-cases, ◌<◌, ◌≤◌, err,
}
use service_daemon_rs.ProviderInit.Retry.{
  Attempt, InitCall, InitLoop, Outcome, deadline, deadline_failure, on_polled, round, init_loop,
}

module _ (F : F64) (T : Type 0) (c : InitCall F T) where
  pub loop_goes_on :
      (a : Attempt F T) (rest : List (Attempt F T)) (s : InitLoop F T)
      → (round F T c a s).1 ≡ none
      → init_loop F T c (a ∷ rest) s ≡ init_loop F T c rest (round F T c a s).0
  unfolding init_loop
  loop_goes_on a rest s h = ground (arith, h)

  pub loop_ends :
      (a : Attempt F T) (rest : List (Attempt F T)) (s : InitLoop F T) {o : Outcome F T}
      → (round F T c a s).1 ≡ some o
      → init_loop F T c (a ∷ rest) s ≡ ((round F T c a s).0, some o)
  unfolding init_loop
  loop_ends a rest s h = ground (arith, h)

  -- What each round keeps, of the loop's variables and of the outcome, holds at the end.
  pub loop_rule {ℓ} :
      (P : InitLoop F T → Option (Outcome F T) → Type ℓ)
      → ((a : Attempt F T) (s : InitLoop F T)
          → P s none
          → P (round F T c a s).0 (round F T c a s).1)
      → (attempts : List (Attempt F T)) (s : InitLoop F T) → P s none
      → P (init_loop F T c attempts s).0 (init_loop F T c attempts s).1
  unfolding init_loop
  loop_rule P keep [] s p = p
  loop_rule P keep (a ∷ rest) s p = elim (Option-cases (round F T c a s).1) [
    | inl m ↦
        rw (loop_goes_on a rest s m)
          (loop_rule P keep rest (round F T c a s).0 (rw (← m) (keep a s p)))
    | inr (o, m) ↦ rw (loop_ends a rest s m) (rw (← m) (keep a s p))
  ]

  pub round-early :
      (a : Attempt F T) (s : InitLoop F T)
      → a.now < deadline F T c
      → round F T c a s ≡ on_polled F T c a a.polled (record s { calls = a.now ∷ s.calls })
  unfolding round
  round-early a s h = ground arith

  pub round-late :
      (a : Attempt F T) (s : InitLoop F T)
      → deadline F T c ≤ a.now
      → round F T c a s ≡ (s, some (err (deadline_failure F T c a s)))
  unfolding round
  round-late a s h = ground arith
