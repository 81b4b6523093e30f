-- ===== src/TriggerRunner/Retry/Limit.antt =====
-- How often the handler is called.
use service_daemon_rs.External.Float.{F64}
use service_daemon_rs.Prelude.{
  ℕ, ◌+◌, ◌≤◌, ◌<◌, ◌≡◌, refl, max, true, false, Option, none, some, List, [], ◌∷◌, ◌++◌, length,
  All, arith, ok, err, is_some, Bool-cases, inl, inr, ◌∙◌, Option-cases,
}
use service_daemon_rs.Prelude.Words.{u32_max}
use service_daemon_rs.Policy.Restart.{RestartPolicy}
use service_daemon_rs.Policy.Backoff
use service_daemon_rs.RuntimeFacts.{TriggerFacts}
use service_daemon_rs.Supervisor.Exit.{handler_retry_exhausted}
use service_daemon_rs.TriggerRunner.Retry.{
  Attempt, Run, record_retry_failure, attempt, is_exhausted, retry_loop, intercept, fresh_run,
}

module _ (F : F64) where
  open F use {Num}

  -- A call that fails, after which the interceptor waits and goes on.
  abbrev pub Fails : Attempt F → Type 0
  Fails a = (is_some a.error ≡ true) × (a.is_shutdown ≡ false) × (a.slept ≡ true)

  -- The calls so far, all failed, are the attempts that the backoff counted.
  record IsCounted (limit : ℕ) (r : Run F) : Type 0 where
    pub same_limit : r.backoff.policy.trigger_max_retries ≡ some limit
    pub same_count : r.backoff.attempt_count ≡ r.calls

  failed_attempt :
      (limit : ℕ) (a : Attempt F) (r : Run F)
      → Fails a
      → IsCounted limit r
      → r.calls < u32_max
      → ((attempt F a r).1 ≡ none)
        × IsCounted limit (attempt F a r).0
        × ((attempt F a r).0.calls ≡ r.calls + 1)
  unfolding attempt record_retry_failure Backoff.record_failure
  failed_attempt limit a r h c l = (
    ground arith,
    record { same_limit = ground (arith, c.same_limit); same_count = ground (arith, c.same_count) },
    ground arith,
  )

  not_yet : (limit : ℕ) (r : Run F) → IsCounted limit r → r.calls < limit → is_exhausted F r ≡ false
  unfolding is_exhausted
  not_yet limit r c l = ground (arith, c.same_limit, c.same_count)

  loop_step :
      (a : Attempt F) (rest : List (Attempt F)) (r : Run F)
      → is_exhausted F r ≡ false
      → (attempt F a r).1 ≡ none
      → retry_loop F (a ∷ rest) r ≡ retry_loop F rest (attempt F a r).0
  unfolding retry_loop
  loop_step a rest r h m = ground (arith, h, m)

  -- A run that the loop has reached over failed calls.
  record Reached (limit calls : ℕ) (before rest : List (Attempt F)) (r : Run F) : Type 0 where
    reached : Run F
    counted : IsCounted limit reached
    is_at : reached.calls ≡ calls
    goes_on : retry_loop F (before ++ rest) r ≡ retry_loop F rest reached

  loop-Fails :
      (limit : ℕ) (before rest : List (Attempt F)) (r : Run F)
      → All Fails before
      → IsCounted limit r
      → limit ≤ u32_max
      → 1 ≤ r.calls
      → r.calls + length before ≤ max limit 1
      → Reached limit (r.calls + length before) before rest r
  unfolding retry_loop
  loop-Fails limit [] rest r h c l o e = record {
    reached = r;
    counted = c;
    is_at = omega arith;
    goes_on = refl;
  }
  loop-Fails limit (a ∷ before) rest r h c l o e =
      let (more, counted, one) = failed_attempt limit a r h.0 c (omega arith) in
      let later =
        loop-Fails limit before rest (attempt F a r).0 h.1 counted l (omega arith) (omega arith) in
      record {
        reached = later.reached;
        counted = later.counted;
        is_at = omega (arith, later.is_at, one);
        goes_on =
            loop_step a (before ++ rest) r (not_yet limit r c (omega arith)) more ∙ later.goes_on;
      }

  first_failed :
      (p : RestartPolicy Num) (facts : Option TriggerFacts) (a : Attempt F)
      (rest : List (Attempt F))
      → (attempt F a (fresh_run F p facts)).1 ≡ none
      → intercept F p facts (a ∷ rest) ≡ retry_loop F rest (attempt F a (fresh_run F p facts)).0
  unfolding intercept
  first_failed p facts a rest h = ground (arith, h)

  -- The run after failed calls, when there is at least one and the limit allows them all.
  record Failed (p : RestartPolicy Num) (facts : Option TriggerFacts) (limit calls : ℕ)
      (before rest : List (Attempt F)) : Type 0 where
    so_far : Run F
    counted : IsCounted limit so_far
    is_at : so_far.calls ≡ calls
    goes_on : intercept F p facts (before ++ rest) ≡ retry_loop F rest so_far

  intercept-Fails :
      (p : RestartPolicy Num) (facts : Option TriggerFacts) (limit : ℕ) (a : Attempt F)
      (before rest : List (Attempt F))
      → p.trigger_max_retries ≡ some limit
      → All Fails (a ∷ before)
      → limit ≤ u32_max
      → 1 + length before ≤ max limit 1
      → Failed p facts limit (1 + length before) (a ∷ before) rest
  unfolding Backoff.new
  intercept-Fails p facts limit a before rest e h l k =
      let start = fresh_run F p facts in
      let (more, counted, one) =
        failed_attempt limit a start h.0 (record { same_limit = e; same_count = refl })
          (omega arith) in
      let later =
        loop-Fails limit before rest (attempt F a start).0 h.1 counted l (omega arith)
          (omega arith) in
      record {
        so_far = later.reached;
        counted = later.counted;
        is_at = omega (arith, later.is_at, one);
        goes_on = first_failed p facts a (before ++ rest) more ∙ later.goes_on;
      }

  over :
      (limit : ℕ) (rest : List (Attempt F)) (r : Run F)
      → IsCounted limit r
      → limit ≤ r.calls
      → retry_loop F rest r ≡ (r, some (err handler_retry_exhausted))
  unfolding retry_loop is_exhausted
  over limit [] r c l = ground (arith, c.same_limit, c.same_count)
  over limit (a ∷ rest) r c l = ground (arith, c.same_limit, c.same_count)

  -- With `trigger_max_retries` set to a limit, calls that keep failing are made as often as the limit
  -- says, though once at least, and then the dispatch fails with `HandlerRetryExhausted`.
  pub intercept_exhausted :
      (p : RestartPolicy Num) (facts : Option TriggerFacts) (limit : ℕ)
      (before rest : List (Attempt F))
      → p.trigger_max_retries ≡ some limit
      → All Fails before
      → limit ≤ u32_max
      → length before ≡ max limit 1
      → ((intercept F p facts (before ++ rest)).1 ≡ some (err handler_retry_exhausted))
        × ((intercept F p facts (before ++ rest)).0.calls ≡ max limit 1)
  intercept_exhausted p facts limit [] rest e h l k = ground (arith, k)
  intercept_exhausted p facts limit (a ∷ before) rest e h l k =
      let f = intercept-Fails p facts limit a before rest e h l (omega (arith, k)) in
      rw (f.goes_on, over limit rest f.so_far f.counted (omega (arith, f.is_at, k)))
        (refl, omega (arith, f.is_at, k))

  succeeds :
      (limit : ℕ) (b : Attempt F) (rest : List (Attempt F)) (r : Run F)
      → IsCounted limit r
      → r.calls < limit
      → b.error ≡ none
      → ((retry_loop F (b ∷ rest) r).1 ≡ some (ok tt))
        × ((retry_loop F (b ∷ rest) r).0.calls ≡ r.calls + 1)
  unfolding retry_loop is_exhausted attempt
  succeeds limit b rest r c l e = ground (arith, c.same_limit, c.same_count)

  -- A call that succeeds after fewer failed ones than the limit, or as the first, ends the dispatch
  -- well, and no call follows it.
  intercept_succeeds :
      (p : RestartPolicy Num) (facts : Option TriggerFacts) (limit : ℕ) (before : List (Attempt F))
      (b : Attempt F) (rest : List (Attempt F))
      → p.trigger_max_retries ≡ some limit
      → All Fails before
      → limit ≤ u32_max
      → length before < max limit 1
      → b.error ≡ none
      → ((intercept F p facts (before ++ b ∷ rest)).1 ≡ some (ok tt))
        × ((intercept F p facts (before ++ b ∷ rest)).0.calls ≡ length before + 1)
  unfolding intercept attempt
  intercept_succeeds p facts limit [] b rest e h l k g = ground arith
  intercept_succeeds p facts limit (a ∷ before) b rest e h l k g =
      let f = intercept-Fails p facts limit a before (b ∷ rest) e h l (omega arith) in
      let (good, one) = succeeds limit b rest f.so_far f.counted (omega (arith, f.is_at)) g in
      rw f.goes_on (good, omega (arith, one, f.is_at))

  attempt_counts :
      (limit : ℕ) (a : Attempt F) (r : Run F)
      → IsCounted limit r
      → r.calls < u32_max
      → (attempt F a r).1 ≡ none
      → IsCounted limit (attempt F a r).0
  unfolding attempt record_retry_failure Backoff.record_failure
  attempt_counts limit a r c l m = record {
    same_limit = ground (arith, c.same_limit);
    same_count = ground (arith, c.same_count);
  }

  attempt_calls : (a : Attempt F) (r : Run F) → (attempt F a r).0.calls ≡ r.calls + 1
  unfolding attempt record_retry_failure
  attempt_calls a r = ground arith

  loop_bound :
      (limit : ℕ) (tries : List (Attempt F)) (r : Run F)
      → IsCounted limit r
      → limit ≤ u32_max
      → (retry_loop F tries r).0.calls ≤ max limit r.calls
  unfolding retry_loop
  loop_bound limit [] r c l = ground arith
  loop_bound limit (a ∷ rest) r c l = elim (Bool-cases (is_exhausted F r)) [
    | inl e ↦ ground (arith, e)
    | inr e ↦ elim (Option-cases (attempt F a r).1) [
      | inl m ↦ ground (
        arith,
        loop_step a rest r e m,
        attempt_calls a r,
        below e,
        loop_bound limit rest (attempt F a r).0
            (attempt_counts limit a r c (omega (arith, below e)) m) l,
      )
      | inr (v, m) ↦ ground (arith, e, m, attempt_calls a r, below e)
    ]
  ]
    where
      below : is_exhausted F r ≡ false → r.calls < limit
      below e = unfold is_exhausted in ground (arith, c.same_limit, c.same_count)

  -- Whatever happens around the calls, the handler is never called more often than the limit says,
  -- or once.
  pub intercept_bound :
      (p : RestartPolicy Num) (facts : Option TriggerFacts) (limit : ℕ) (tries : List (Attempt F))
      → p.trigger_max_retries ≡ some limit
      → limit ≤ u32_max
      → (intercept F p facts tries).0.calls ≤ max limit 1
  unfolding intercept Backoff.new
  intercept_bound p facts limit [] e l = omega arith
  intercept_bound p facts limit (a ∷ rest) e l =
      let start = fresh_run F p facts in
      elim (Option-cases (attempt F a start).1) [
        | inl m ↦ ground (
          arith,
          first_failed p facts a rest m,
          attempt_calls a start,
          loop_bound limit rest (attempt F a start).0
              (attempt_counts limit a start (record { same_limit = e; same_count = refl })
                (omega arith) m)
              l,
        )
        | inr (v, m) ↦ ground (arith, m, attempt_calls a start)
      ]
