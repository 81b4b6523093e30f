-- ===== src/Policy/Restart/Delay.antt =====
-- Bounds of the next retry delay, and the floats that the builder lets through.
use service_daemon_rs.External.Float.{F64, Laws}
use service_daemon_rs.Prelude.{ℕ, ◌≤◌, ◌≡◌, true, List, [], ◌∷◌, arith}
use service_daemon_rs.Policy.Restart.{
  RestartPolicy, sanitized_multiplier, sanitized_jitter_factor, bounded, jittered, next_delay,
  Setter, default, apply, apply_all,
}

module _ (F : F64) where
  open F use {Num, zero_value, one_value, lt, le, is_finite, as_secs}

  bounded-le : (max_delay : ℕ) (s : Num) → bounded F max_delay s ≤ max_delay
  unfolding bounded
  bounded-le max_delay s = ground arith

  -- Whatever the floats, the jitter and the current delay, the next delay is at most `max_delay`.
  pub next_delay-le-max :
      (draw : Num → Num → Num) (p : RestartPolicy Num) (current : ℕ)
      → next_delay F draw p current ≤ p.max_delay
  unfolding next_delay
  next_delay-le-max draw p current = ground (
    arith,
    bounded-le p.max_delay (
        jittered F draw (sanitized_jitter_factor F p.jitter_factor)
          (F.mul (as_secs current) (sanitized_multiplier F p.multiplier))),
  )

  -- The two floating-point fields are in the range that retry code relies on.
  pub record HasSaneFloats (p : RestartPolicy Num) : Type 0 where
    pub multiplier_finite : is_finite p.multiplier ≡ true
    pub multiplier_positive : lt zero_value p.multiplier ≡ true
    pub jitter_finite : is_finite p.jitter_factor ≡ true
    pub jitter_lower : le zero_value p.jitter_factor ≡ true
    pub jitter_upper : le p.jitter_factor one_value ≡ true

module _ (F : F64) (L : Laws F) where
  open F use {Num, zero_value, one_value, lt, le, is_finite}

  sanitized_multiplier_lem :
      (m : Num)
      → (is_finite (sanitized_multiplier F m) ≡ true)
        × (lt zero_value (sanitized_multiplier F m) ≡ true)
  unfolding sanitized_multiplier
  sanitized_multiplier_lem m =
      (ground (arith, L.one_finite, L.one_positive), ground (arith, L.one_finite, L.one_positive))

  sanitized_jitter_factor_lem :
      (f : Num)
      → (is_finite (sanitized_jitter_factor F f) ≡ true)
        × (le zero_value (sanitized_jitter_factor F f) ≡ true)
        × (le (sanitized_jitter_factor F f) one_value ≡ true)
  unfolding sanitized_jitter_factor
  sanitized_jitter_factor_lem f = (
    ground (arith, L.zero_finite, L.clamp_finite f),
    ground (arith, L.zero-le-zero, L.clamp_lower f),
    ground (arith, L.zero-le-one, L.clamp_upper f),
  )

  apply-HasSaneFloats :
      (s : Setter F) (p : RestartPolicy Num) → HasSaneFloats F p → HasSaneFloats F (apply F s p)
  unfolding apply
  apply-HasSaneFloats (Setter.multiplier m) p h = record {
    multiplier_finite = (sanitized_multiplier_lem m).0;
    multiplier_positive = (sanitized_multiplier_lem m).1;
    jitter_finite = h.jitter_finite;
    jitter_lower = h.jitter_lower;
    jitter_upper = h.jitter_upper;
  }
  apply-HasSaneFloats (Setter.jitter_factor f) p h = record {
    multiplier_finite = h.multiplier_finite;
    multiplier_positive = h.multiplier_positive;
    jitter_finite = (sanitized_jitter_factor_lem f).0;
    jitter_lower = (sanitized_jitter_factor_lem f).1;
    jitter_upper = (sanitized_jitter_factor_lem f).2;
  }
  apply-HasSaneFloats _ p h = record {
    multiplier_finite = h.multiplier_finite;
    multiplier_positive = h.multiplier_positive;
    jitter_finite = h.jitter_finite;
    jitter_lower = h.jitter_lower;
    jitter_upper = h.jitter_upper;
  }

  apply_all-HasSaneFloats :
      (ss : List (Setter F)) (p : RestartPolicy Num)
      → HasSaneFloats F p
      → HasSaneFloats F (apply_all F ss p)
  unfolding apply_all
  apply_all-HasSaneFloats [] p h = h
  apply_all-HasSaneFloats (s ∷ ss) p h =
      apply_all-HasSaneFloats ss (apply F s p) (apply-HasSaneFloats s p h)

  -- The builder makes no policy with an infinite or negative multiplier or a jitter outside [0, 1].
  pub built-HasSaneFloats : (ss : List (Setter F)) → HasSaneFloats F (apply_all F ss (default F))
  unfolding default
  built-HasSaneFloats ss = apply_all-HasSaneFloats ss (default F) (record {
    multiplier_finite = L.two_finite;
    multiplier_positive = L.two_positive;
    jitter_finite = L.tenth_finite;
    jitter_lower = L.zero-le-tenth;
    jitter_upper = L.tenth-le-one;
  })
