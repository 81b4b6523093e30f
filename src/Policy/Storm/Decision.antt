-- ===== src/Policy/Storm/Decision.antt =====
-- The decision of the storm guard, from the history of failures alone.
use service_daemon_rs.Prelude.{
  ℕ, suc, ◌≤◌, ◌≡◌, refl, ap, ◌∙◌, ◌&&◌, List, [], ◌∷◌, leb, ltb, ltb, length, length-append,
  retain, if◌then◌else◌, arith, max,
}
use service_daemon_rs.Policy.Storm.{
  RestartStormConfig, RestartStormGuard, RestartStormDecision, new, prune, record_failure,
}
use service_daemon_rs.Policy.Storm.Window.{
  in_window, Rising, moments, record_all, record_all-config, record_all-prune,
}

-- How many failures of the history the window at `now` still holds.
abbrev pub recent : ℕ → ℕ → List (ℕ × ℕ) → ℕ
recent window now ts = length (retain (in_window window now) (moments ts))

-- What the guard promises: with `n` failures in its window the delay is raised to the suppression
-- delay from the threshold on, and the restart is rate limited if that raised it.
abbrev pub decision : RestartStormConfig → ℕ → ℕ → RestartStormDecision
decision c n policy_delay =
    let storm = leb (max c.failure_threshold 1) n in
    record {
      policy_delay = policy_delay;
      effective_delay = if storm then max policy_delay c.suppression_delay else policy_delay;
      rate_limited = storm && ltb policy_delay c.suppression_delay;
      window_failures = n;
    }

record_failure-decision :
    (c : RestartStormConfig) (failures : List ℕ) (now d n : ℕ)
    → length (prune c.window now failures) ≡ n
    → (record_failure (record (new c) { failures = failures }) now d).1 ≡ decision c (suc n) d
unfolding record_failure new
record_failure-decision c failures now d n h =
    rw (length-append (prune c.window now failures) (now ∷ []), h) (ground arith)

-- A guard that has recorded a history of failures, in order of time, decides on the next one by the
-- failures of the last window alone, and as the specification says.
pub record_failure-history :
    (c : RestartStormConfig) (ts : List (ℕ × ℕ)) (now d : ℕ)
    → Rising 0 ts now
    → (record_failure (record_all (new c) ts) now d).1 ≡ decision c (suc (recent c.window now ts)) d
record_failure-history c ts now d r =
    ap (λ g. (record_failure g now d).1) rebuilt
    ∙ record_failure-decision c (record_all (new c) ts).failures now d (recent c.window now ts)
        (ap length (record_all-prune c ts now r))
  where
    rebuilt : record_all (new c) ts ≡ record (new c) { failures = (record_all (new c) ts).failures }
    rebuilt = λ i. record {
      config = record_all-config (new c) ts i;
      failures = (record_all (new c) ts).failures;
    }

-- Whatever the history, the effective delay is at least the policy's, and is more only where the
-- decision says that it is rate limited.
pub record_failure-delay :
    (g : RestartStormGuard) (now d : ℕ)
    → let (g', decided) = record_failure g now d in
      (d ≤ decided.effective_delay)
      × (decided.rate_limited ≡ ltb d decided.effective_delay)
      × (decided.window_failures ≡ length g'.failures)
unfolding record_failure
record_failure-delay g now d = (ground arith, refl, refl)
