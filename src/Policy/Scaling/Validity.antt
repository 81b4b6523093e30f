-- ===== src/Policy/Scaling/Validity.antt =====
-- The invariant of a scaling policy, and that every way to make one establishes it.
use service_daemon_rs.Prelude.{ℕ, ◌≤◌, ◌≡◌, ◌↔◌, List, [], ◌∷◌, ok, arith}
use service_daemon_rs.Policy.Scaling.{
  ScalingPolicy, Setter, try_new, default, apply, apply_all, build, built,
}

pub record IsValid (p : ScalingPolicy) : Type 0 where
  pub initial_positive : 1 ≤ p.initial_concurrency
  pub initial_within : p.initial_concurrency ≤ p.max_concurrency
  pub factor_grows : 2 ≤ p.scale_factor
  pub threshold_positive : 1 ≤ p.scale_threshold

-- `try_new` on the fields of a policy returns that policy exactly when it is valid.
pub try_new-ok_iff :
    (p : ScalingPolicy)
    → (try_new p.initial_concurrency p.max_concurrency p.scale_factor p.scale_threshold
          p.scale_cooldown
        ≡ ok p)
      ↔ IsValid p
unfolding try_new
try_new-ok_iff p = (λ h. ground arith, λ v. ground arith)

-- A policy that `try_new` returns is valid, and has the arguments for its fields.
pub try_new_sound :
    (i m f t c : ℕ) {p : ScalingPolicy}
    → try_new i m f t c ≡ ok p
    → IsValid p × (p.initial_concurrency ≡ i) × (p.max_concurrency ≡ m)
unfolding try_new
try_new_sound i m f t c h = (ground arith, ground arith, ground arith)

-- What every setter keeps: all of validity but the order of the two concurrency fields.
record IsClamped (p : ScalingPolicy) : Type 0 where
  initial_positive : 1 ≤ p.initial_concurrency
  max_positive : 1 ≤ p.max_concurrency
  factor_grows : 2 ≤ p.scale_factor
  threshold_positive : 1 ≤ p.scale_threshold

apply-IsClamped : (s : Setter) {p : ScalingPolicy} → IsClamped p → IsClamped (apply s p)
unfolding apply
apply-IsClamped (Setter.initial_concurrency n) h = ground arith
apply-IsClamped (Setter.max_concurrency n) h = ground arith
apply-IsClamped (Setter.scale_factor n) h = ground arith
apply-IsClamped (Setter.scale_threshold n) h = ground arith
apply-IsClamped (Setter.scale_cooldown n) h = ground arith

apply_all-IsClamped :
    (ss : List Setter) {p : ScalingPolicy} → IsClamped p → IsClamped (apply_all ss p)
unfolding apply_all
apply_all-IsClamped [] h = h
apply_all-IsClamped (s ∷ ss) h = apply_all-IsClamped ss (apply-IsClamped s h)

default-IsClamped : IsClamped default
unfolding default
default-IsClamped = ground arith

build-IsValid : {p : ScalingPolicy} → IsClamped p → IsValid (build p)
unfolding build
build-IsValid h = ground arith

-- Every chain of builder calls, in any order and with any arguments, ends in a valid policy, which
-- the strict constructor accepts unchanged.
pub built-IsValid :
    (ss : List Setter)
    → IsValid (built ss)
      × (try_new
            (built ss).initial_concurrency
            (built ss).max_concurrency
            (built ss).scale_factor
            (built ss).scale_threshold
            (built ss).scale_cooldown
          ≡ ok (built ss))
unfolding built
built-IsValid ss = (valid, (try_new-ok_iff (built ss)).1 valid)
  where
    valid : IsValid (built ss)
    valid = build-IsValid (apply_all-IsClamped ss default-IsClamped)
