-- ===== src/Policy/Overlay/Shape.antt =====
-- Exactly which overlays have an acceptable shape.
use mathlib.Core.List.{reverse-cons}
use service_daemon_rs.External.Float.{F64}
use service_daemon_rs.Prelude.{
  ℕ, ◌<◌, ◌≡◌, ◌≢◌, refl, ap, ◌∙◌, ◌↔◌, ◌⊎◌, Bool, true, false, not, ◌||◌, Option, none, some, List,
  [], ◌∷◌, ◌++◌, reverse, is_some, ok, arith,
}
use service_daemon_rs.Policy.Restart.{RestartPolicy}
use service_daemon_rs.Policy.Overlay.{
  is_whitespace, trim_start, trim, is_empty, TriggerPolicyOverlay, validate_retry_policy,
  validate_optional, validate_shape,
}

-- Some character of the text is not white space.
abbrev pub has_ink : List ℕ → Bool
has_ink [] = false
has_ink (c ∷ cs) = not (is_whitespace c) || has_ink cs

has_ink-append : (xs ys : List ℕ) → has_ink (xs ++ ys) ≡ has_ink xs || has_ink ys
has_ink-append [] ys = refl
has_ink-append (c ∷ cs) ys = ground (arith, has_ink-append cs ys)

has_ink-reverse : (cs : List ℕ) → has_ink (reverse cs) ≡ has_ink cs
has_ink-reverse [] = refl
has_ink-reverse (c ∷ cs) =
    ap has_ink (reverse-cons c cs)
    ∙ has_ink-append (reverse cs) (c ∷ [])
    ∙ ground (arith, has_ink-reverse cs)

has_ink-trim_start : (cs : List ℕ) → has_ink (trim_start cs) ≡ has_ink cs
unfolding trim_start
has_ink-trim_start [] = refl
has_ink-trim_start (c ∷ cs) = ground (arith, has_ink-trim_start cs)

is_empty-trim_start : (cs : List ℕ) → is_empty (trim_start cs) ≡ not (has_ink cs)
unfolding trim_start
is_empty-trim_start [] = refl
is_empty-trim_start (c ∷ cs) = ground (arith, is_empty-trim_start cs)

is_empty-reverse : (cs : List ℕ) → is_empty (reverse cs) ≡ is_empty cs
is_empty-reverse [] = refl
is_empty-reverse (c ∷ cs) = ap is_empty (reverse-cons c cs) ∙ snoc (reverse cs)
  where
    snoc : (xs : List ℕ) → is_empty (xs ++ c ∷ []) ≡ false
    snoc [] = refl
    snoc (x ∷ xs) = refl

-- A trimmed text is empty exactly when it was all white space.
pub is_empty-trim : (cs : List ℕ) → is_empty (trim cs) ≡ not (has_ink cs)
unfolding trim
is_empty-trim cs =
    is_empty-reverse (trim_start (reverse (trim_start cs)))
    ∙ is_empty-trim_start (reverse (trim_start cs))
    ∙ ap not (has_ink-reverse (trim_start cs) ∙ has_ink-trim_start cs)

module _ (F : F64) where
  open F use {Num, zero_value, one_value, lt, le, is_finite}

  -- The retry policy of an overlay is one that retry code can use.
  abbrev pub IsUsable : RestartPolicy Num → Type 0
  IsUsable p =
      (is_finite p.multiplier ≡ true)
      × (le p.multiplier zero_value ≡ false)
      × (is_finite p.jitter_factor ≡ true)
      × (le zero_value p.jitter_factor ≡ true)
      × (le p.jitter_factor one_value ≡ true)

  abbrev pub IsUsableOption : Option (RestartPolicy Num) → Type 0
  IsUsableOption none = Unit {0}
  IsUsableOption (some p) = IsUsable p

  pub record IsWellShaped (o : TriggerPolicyOverlay F) : Type 0 where
    pub reason_inked : has_ink o.reason ≡ true
    pub ttl_positive : 0 < o.ttl
    pub not_empty :
        (is_some o.concurrency_limit ≡ true)
        ⊎ (is_some o.dispatch_timeout ≡ true)
        ⊎ (is_some o.retry_policy ≡ true)
    pub limit_positive : o.concurrency_limit ≢ some 0
    pub timeout_positive : o.dispatch_timeout ≢ some 0
    pub retry_usable : IsUsableOption o.retry_policy

  validate_retry_policy-ok :
      (p : RestartPolicy Num) → (validate_retry_policy F p ≡ ok tt) ↔ IsUsable p
  unfolding validate_retry_policy
  validate_retry_policy-ok p = (λ h. ground arith, λ h. ground arith)

  validate_optional-ok :
      (p : Option (RestartPolicy Num)) → (validate_optional F p ≡ ok tt) ↔ IsUsableOption p
  validate_optional-ok none = (λ h. tt, λ h. refl)
  validate_optional-ok (some p) = validate_retry_policy-ok p

  -- The shape check accepts an overlay exactly when it is well shaped.
  pub validate_shape-ok_iff :
      (o : TriggerPolicyOverlay F) → (validate_shape F o ≡ ok tt) ↔ IsWellShaped o
  unfolding validate_shape
  validate_shape-ok_iff o = (
    λ h. record {
      reason_inked = ground (arith, is_empty-trim o.reason);
      ttl_positive = ground arith;
      not_empty = ground arith;
      limit_positive = ground arith;
      timeout_positive = ground arith;
      retry_usable = (validate_optional-ok o.retry_policy).0 (ground arith);
    },
    λ v. ground (
      arith,
      is_empty-trim o.reason,
      v.reason_inked,
      v.ttl_positive,
      v.not_empty,
      v.limit_positive,
      v.timeout_positive,
      (validate_optional-ok o.retry_policy).1 v.retry_usable,
    ),
  )
