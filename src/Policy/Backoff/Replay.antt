-- ===== src/Policy/Backoff/Replay.antt =====
-- A controller against the calls made of it: it stands for the failures since the last reset.
use service_daemon_rs.External.Float.{F64}
use service_daemon_rs.Prelude.{
  ℕ, ◌⊎◌, inl, inr, ◌≤◌, ◌<◌, ◌≡◌, refl, ap, ◌∙◌, min, Bool, List, [], ◌∷◌, leb, if◌then◌else◌,
  length, arith,
}
use service_daemon_rs.Prelude.Words.{u32_max}
use service_daemon_rs.Policy.Restart.{RestartPolicy, next_delay}
use service_daemon_rs.Policy.Restart.Delay.{next_delay-le-max}
use service_daemon_rs.Policy.Backoff.{
  BackoffController, new, record_success, record_failure, maybe_reset, backoff_or_cancel,
}

module _ (F : F64) where
  open F use {Num}

  -- The calls that change a controller.
  pub data Call : Type 0 where
    success : Call
    failure : (Num → Num → Num) → Call
    ran_for : ℕ → Call
    backoff : (Num → Num → Num) → Bool → Call

  pub call : BackoffController F → Call → BackoffController F
  unfolding record_success record_failure maybe_reset backoff_or_cancel
  call b success = record_success F b
  call b (failure draw) = record_failure F draw b
  call b (ran_for elapsed) = maybe_reset F elapsed b
  call b (backoff draw slept) = (backoff_or_cancel F draw slept b).0

  pub call_all : BackoffController F → List Call → BackoffController F
  call_all b [] = b
  call_all b (c ∷ cs) = call_all (call b c) cs

  -- The draws of the failures since the last reset, newest first.
  abbrev pub pending : RestartPolicy Num → List (Num → Num → Num) → Call → List (Num → Num → Num)
  pending p ds success = []
  pending p ds (failure draw) = draw ∷ ds
  pending p ds (ran_for elapsed) = if leb p.reset_after elapsed then [] else ds
  pending p ds (backoff draw slept) = if slept then draw ∷ ds else ds

  pub pending_all : RestartPolicy Num → List (Num → Num → Num) → List Call → List (Num → Num → Num)
  pending_all p ds [] = ds
  pending_all p ds (c ∷ cs) = pending_all p (pending p ds c) cs

  -- The initial delay, advanced once for each pending failure.
  abbrev pub delay_after : RestartPolicy Num → List (Num → Num → Num) → ℕ
  delay_after p [] = p.initial_delay
  delay_after p (draw ∷ ds) = next_delay F draw p (delay_after p ds)

  -- The controller that stands for so many pending failures.
  abbrev pub controller : RestartPolicy Num → List (Num → Num → Num) → BackoffController F
  controller p ds = record {
    policy = p;
    current_delay = delay_after p ds;
    attempt_count = min (length ds) u32_max;
  }

  call-controller :
      (p : RestartPolicy Num) (ds : List (Num → Num → Num)) (c : Call)
      → call (controller p ds) c ≡ controller p (pending p ds c)
  unfolding call
  call-controller p ds success = refl
  call-controller p ds (failure draw) = ground arith
  call-controller p ds (ran_for elapsed) = ground arith
  call-controller p ds (backoff draw slept) = ground arith

  call_all-controller :
      (p : RestartPolicy Num) (ds : List (Num → Num → Num)) (cs : List Call)
      → call_all (controller p ds) cs ≡ controller p (pending_all p ds cs)
  unfolding call_all pending_all
  call_all-controller p ds [] = refl
  call_all-controller p ds (c ∷ cs) =
      ap (λ b. call_all b cs) (call-controller p ds c) ∙ call_all-controller p (pending p ds c) cs

  -- After any calls a controller is the one that its pending failures determine: the delay is the
  -- initial one advanced once for each, and the counter is their number, kept below 2 ^ 32.
  pub call_all-new :
      (p : RestartPolicy Num) (cs : List Call)
      → call_all (new F p) cs ≡ controller p (pending_all p [] cs)
  unfolding new
  call_all-new p cs = ap (λ b. call_all b cs) same ∙ call_all-controller p [] cs
    where
      same : new F p ≡ controller p []
      same = ground arith

  controller_bounds :
      (p : RestartPolicy Num) (ds : List (Num → Num → Num))
      → let b = controller p ds in
        ((b.attempt_count ≡ 0) × (b.current_delay ≡ p.initial_delay))
        ⊎ ((0 < b.attempt_count) × (b.current_delay ≤ p.max_delay))
  controller_bounds p [] = inl (omega arith, refl)
  controller_bounds p (draw ∷ ds) = inr (omega arith, next_delay-le-max F draw p (delay_after p ds))

  -- After any calls the next wait is the initial delay if no failure is counted, and at most the
  -- maximal delay otherwise.
  pub call_all_bounds :
      (p : RestartPolicy Num) (cs : List Call)
      → let b = call_all (new F p) cs in
        ((b.attempt_count ≡ 0) × (b.current_delay ≡ p.initial_delay))
        ⊎ ((0 < b.attempt_count) × (b.current_delay ≤ p.max_delay))
  call_all_bounds p cs = rw (call_all-new p cs) (controller_bounds p (pending_all p [] cs))
