-- ===== src/Policy/Overlay.antt =====
-- `TriggerPolicyOverlay`, its builder and its errors, of models/policy.rs. A text is the list of its
-- code points; white space is Unicode's, as in `str::trim`.
pub mod Shape
use service_daemon_rs.External.Float.{F64}
use service_daemon_rs.Prelude.{
  ℕ, Bool, true, false, not, ◌&&◌, ◌||◌, Option, none, some, List, [], ◌∷◌, reverse, leb, ◌==◌,
  if◌then◌else◌, is_some, Result, ok, err, ◌>>=◌, ◌>>◌,
}
use service_daemon_rs.Policy.Restart.{RestartPolicy}

unfoldable pub is_whitespace : ℕ → Bool
is_whitespace c =
    (leb 9 c && leb c 13)
    || (c == 32)
    || (c == 0x85)
    || (c == 0xa0)
    || (c == 0x1680)
    || (leb 0x2000 c && leb c 0x200a)
    || (c == 0x2028)
    || (c == 0x2029)
    || (c == 0x202f)
    || (c == 0x205f)
    || (c == 0x3000)

pub trim_start : List ℕ → List ℕ
trim_start [] = []
trim_start (c ∷ cs) = elim (is_whitespace c) [ true ↦ trim_start cs | false ↦ c ∷ cs ]

-- `str::trim`.
pub trim : List ℕ → List ℕ
unfolding trim_start
trim cs = reverse (trim_start (reverse (trim_start cs)))

abbrev pub is_empty {ℓ} : {A : Type ℓ} → List A → Bool
is_empty [] = true
is_empty (x ∷ xs) = false

pub data TriggerPolicyOverlayError : Type 0 where
  empty_reason ttl_is_zero empty_overlay concurrency_limit_zero : TriggerPolicyOverlayError
  concurrency_limit_exceeds_max : ℕ → ℕ → TriggerPolicyOverlayError
  dispatch_timeout_zero invalid_retry_multiplier invalid_retry_jitter : TriggerPolicyOverlayError
  trigger_overlay_unavailable : TriggerPolicyOverlayError

-- Fails with the error if the test holds: `if test { return Err(error); }`.
abbrev pub reject_if :
    Bool → TriggerPolicyOverlayError → Result (Unit {0}) TriggerPolicyOverlayError
reject_if true e = err e
reject_if false e = ok tt

-- `validate_reason`, which is also `validate_overlay_clear_reason`.
unfoldable pub validate_reason : List ℕ → Result (Unit {0}) TriggerPolicyOverlayError
validate_reason reason = reject_if (is_empty (trim reason)) TriggerPolicyOverlayError.empty_reason

-- `limit == Some(0)`.
abbrev pub is_some_zero : Option ℕ → Bool
is_some_zero none = false
is_some_zero (some n) = n == 0

module _ (F : F64) where
  open F use {Num, zero_value, one_value, lt, le, is_finite}

  pub record TriggerPolicyOverlay : Type 0 where
    pub reason : List ℕ
    pub ttl : ℕ
    pub concurrency_limit : Option ℕ
    pub dispatch_timeout : Option ℕ
    pub retry_policy : Option (RestartPolicy Num)

  -- `validate_retry_policy`. `x <= 0.0` is `le x 0.0`; `(0.0..=1.0).contains` is two tests.
  pub validate_retry_policy : RestartPolicy Num → Result (Unit {0}) TriggerPolicyOverlayError
  validate_retry_policy policy = do
    reject_if (not (is_finite policy.multiplier) || le policy.multiplier zero_value)
        TriggerPolicyOverlayError.invalid_retry_multiplier
    reject_if
        (not (is_finite policy.jitter_factor)
          || not (le zero_value policy.jitter_factor && le policy.jitter_factor one_value))
        TriggerPolicyOverlayError.invalid_retry_jitter

  abbrev validate_optional :
      Option (RestartPolicy Num) → Result (Unit {0}) TriggerPolicyOverlayError
  validate_optional none = ok tt
  validate_optional (some policy) = validate_retry_policy policy

  -- `TriggerPolicyOverlay::validate_shape`.
  unfoldable pub validate_shape : TriggerPolicyOverlay → Result (Unit {0}) TriggerPolicyOverlayError
  unfolding validate_reason
  validate_shape o = do
    validate_reason o.reason
    reject_if (o.ttl == 0) TriggerPolicyOverlayError.ttl_is_zero
    reject_if
        (not (is_some o.concurrency_limit)
          && not (is_some o.dispatch_timeout)
          && not (is_some o.retry_policy))
        TriggerPolicyOverlayError.empty_overlay
    reject_if (is_some_zero o.concurrency_limit) TriggerPolicyOverlayError.concurrency_limit_zero
    reject_if (is_some_zero o.dispatch_timeout) TriggerPolicyOverlayError.dispatch_timeout_zero
    validate_optional o.retry_policy

  -- The setters of `TriggerPolicyOverlayBuilder`.
  pub data Setter : Type 0 where
    concurrency_limit dispatch_timeout : ℕ → Setter
    retry_policy : RestartPolicy Num → Setter

  pub apply : TriggerPolicyOverlay → Setter → TriggerPolicyOverlay
  apply o (Setter.concurrency_limit limit) = record o { concurrency_limit = some limit }
  apply o (Setter.dispatch_timeout timeout) = record o { dispatch_timeout = some timeout }
  apply o (Setter.retry_policy policy) = record o { retry_policy = some policy }

  pub apply_all : TriggerPolicyOverlay → List Setter → TriggerPolicyOverlay
  apply_all o [] = o
  apply_all o (s ∷ ss) = apply_all (apply o s) ss

  -- `TriggerPolicyOverlay::builder(reason, ttl)`, its setters in order, and `build`.
  pub build : List ℕ → ℕ → List Setter → Result TriggerPolicyOverlay TriggerPolicyOverlayError
  unfolding apply_all apply validate_shape
  build reason ttl setters = do
    let overlay =
        apply_all
          (record {
            reason = reason;
            ttl = ttl;
            concurrency_limit = none;
            dispatch_timeout = none;
            retry_policy = none;
          })
          setters
    validate_shape overlay
    ok overlay
