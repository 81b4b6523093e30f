-- ===== src/TriggerRunner/Dispatch/Observed.antt =====
-- What the facts of a trigger count, and what its event loop learns, is how its tasks ended.
use service_daemon_rs.Prelude.{
  ℕ, ◌+◌, ◌≡◌, ◌<◌, ◌%◌, ◌^◌, refl, List, [], ◌∷◌, Option, some, arith, Result, ok, err,
}
use service_daemon_rs.RuntimeFacts.{TriggerFacts, record_completed, record_failed}
use service_daemon_rs.Supervisor.Exit.{
  TriggerDispatchFailureKind, dispatch_task_error, dispatch_task_panic, dispatch_task_cancelled,
}
use service_daemon_rs.TriggerRunner.Dispatch.{
  TriggerDispatchFailure, DispatchError, Joined, Identity, failure, observe_dispatch_task,
}

-- The dispatches of a trigger, in the order in which they end: each of them with the clock then.
abbrev pub Ends : Type 0
Ends = List (Identity × (ℕ × Joined))

abbrev pub Outcome : Type 0
Outcome = Result (Unit {0}) TriggerDispatchFailure

-- How many tasks returned `Ok`, and how many returned an error, panicked or were cancelled.
abbrev pub successes : Ends → ℕ
successes [] = 0
successes ((i, (wall, Joined.finished (ok done))) ∷ rest) = successes rest + 1
successes ((i, (wall, Joined.finished (err e))) ∷ rest) = successes rest
successes ((i, (wall, Joined.panicked text)) ∷ rest) = successes rest
successes ((i, (wall, Joined.cancelled text)) ∷ rest) = successes rest

abbrev pub failures : Ends → ℕ
failures [] = 0
failures ((i, (wall, Joined.finished (ok done))) ∷ rest) = failures rest
failures ((i, (wall, Joined.finished (err e))) ∷ rest) = failures rest + 1
failures ((i, (wall, Joined.panicked text)) ∷ rest) = failures rest + 1
failures ((i, (wall, Joined.cancelled text)) ∷ rest) = failures rest + 1

-- A failure of this kind that names the dispatch and gives the reason.
pub record Names (kind : TriggerDispatchFailureKind) (i : Identity) (reason : List ℕ)
    (f : TriggerDispatchFailure) : Type 0 where
  pub same_kind : f.kind ≡ kind
  pub same_trigger : f.trigger_name ≡ i.name
  pub same_service : f.service_id ≡ i.id
  pub same_seq : f.instance_seq ≡ some i.seq
  pub same_message : f.message_id ≡ some i.message
  pub same_reason : f.reason ≡ reason

-- What the event loop is to learn of one end.
abbrev pub Fits : Identity → Joined → Outcome → Type 0
Fits i (Joined.finished (ok done)) (ok tt) = Unit
Fits i (Joined.finished (err (DispatchError.typed f))) (err g) = g ≡ f
Fits i (Joined.finished (err (DispatchError.other text))) (err g) =
    Names dispatch_task_error i text g
Fits i (Joined.panicked text) (err g) = Names dispatch_task_panic i text g
Fits i (Joined.cancelled text) (err g) = Names dispatch_task_cancelled i text g
Fits i (Joined.finished (ok done)) (err g) = ⊥
Fits i (Joined.finished (err (DispatchError.typed f))) (ok tt) = ⊥
Fits i (Joined.finished (err (DispatchError.other text))) (ok tt) = ⊥
Fits i (Joined.panicked text) (ok tt) = ⊥
Fits i (Joined.cancelled text) (ok tt) = ⊥

abbrev pub AllFit : Ends → List Outcome → Type 0
AllFit [] [] = Unit
AllFit [] (o ∷ os) = ⊥
AllFit (e ∷ es) [] = ⊥
AllFit ((i, (wall, joined)) ∷ es) (o ∷ os) = Fits i joined o × AllFit es os

module _ (to_string : TriggerDispatchFailure → List ℕ) where
  -- All of them observed, and their outcomes.
  unfoldable pub observe_all : Ends → Option TriggerFacts → Option TriggerFacts × List Outcome
  unfolding observe_dispatch_task
  observe_all [] facts = (facts, [])
  observe_all ((i, (wall, joined)) ∷ rest) facts =
      let seen = observe_dispatch_task to_string i wall joined facts in
      let later = observe_all rest seen.0 in (later.0, seen.1 ∷ later.1)

  -- The text of the last failure, or that from before.
  abbrev pub last_text : List Outcome → Option (List ℕ) → Option (List ℕ)
  last_text [] before = before
  last_text (ok done ∷ rest) before = last_text rest before
  last_text (err f ∷ rest) before = last_text rest (some (to_string f))

  -- The facts afterwards, by what has ended.
  pub record Counts (facts : TriggerFacts) (succeeded failed : ℕ) (outcomes : List Outcome)
      (after : Option TriggerFacts) : Type 0 where
    pub final : TriggerFacts
    pub is_final : after ≡ some final
    pub completed : final.completed_total ≡ (facts.completed_total + succeeded) % 2 ^ 64
    pub not_completed : final.failed_total ≡ (facts.failed_total + failed) % 2 ^ 64
    pub same_dispatched : final.dispatched_total ≡ facts.dispatched_total
    pub same_retries : final.retry_total ≡ facts.retry_total
    pub says : final.last_error ≡ last_text outcomes facts.last_error

  nothing-Counts :
      (facts : TriggerFacts)
      → facts.completed_total < 2 ^ 64
      → facts.failed_total < 2 ^ 64
      → Counts facts 0 0 [] (some facts)
  nothing-Counts facts c f = record {
    final = facts;
    is_final = refl;
    completed = omega (arith, c);
    not_completed = omega (arith, f);
    same_dispatched = refl;
    same_retries = refl;
    says = refl;
  }

  completed-Counts :
      (wall s n : ℕ) (facts : TriggerFacts) (os : List Outcome) (after : Option TriggerFacts)
      → Counts (record_completed wall facts) s n os after
      → Counts facts (s + 1) n (ok tt ∷ os) after
  unfolding record_completed
  completed-Counts wall s n facts os after k = record {
    final = k.final;
    is_final = k.is_final;
    completed = omega (arith, k.completed);
    not_completed = k.not_completed;
    same_dispatched = k.same_dispatched;
    same_retries = k.same_retries;
    says = k.says;
  }

  failed-Counts :
      (wall s n : ℕ) (f : TriggerDispatchFailure) (facts : TriggerFacts) (os : List Outcome)
      (after : Option TriggerFacts)
      → Counts (record_failed wall (to_string f) facts) s n os after
      → Counts facts s (n + 1) (err f ∷ os) after
  unfolding record_failed
  failed-Counts wall s n f facts os after k = record {
    final = k.final;
    is_final = k.is_final;
    completed = k.completed;
    not_completed = omega (arith, k.not_completed);
    same_dispatched = k.same_dispatched;
    same_retries = k.same_retries;
    says = k.says;
  }

  completed_small :
      (wall : ℕ) (facts : TriggerFacts) → (record_completed wall facts).completed_total < 2 ^ 64
  unfolding record_completed
  completed_small wall facts = omega arith

  failed_small :
      (wall : ℕ) (text : List ℕ) (facts : TriggerFacts)
      → (record_failed wall text facts).failed_total < 2 ^ 64
  unfolding record_failed
  failed_small wall text facts = omega arith

  counts :
      (ends : Ends) (facts : TriggerFacts)
      → facts.completed_total < 2 ^ 64
      → facts.failed_total < 2 ^ 64
      → let seen = observe_all ends (some facts) in
        Counts facts (successes ends) (failures ends) seen.1 seen.0
  unfolding observe_all observe_dispatch_task record_completed record_failed
  counts [] facts c f = nothing-Counts facts c f
  counts ((i, (wall, Joined.finished (ok tt))) ∷ rest) facts c f =
      completed-Counts wall _ _ facts _ _
        (counts rest (record_completed wall facts) (completed_small wall facts) f)
  counts ((i, (wall, Joined.finished (err (DispatchError.typed x)))) ∷ rest) facts c f =
      failed-Counts wall _ _ x facts _ _ (
        counts rest (record_failed wall (to_string x) facts) c
          (failed_small wall (to_string x) facts))
  counts ((i, (wall, Joined.finished (err (DispatchError.other text)))) ∷ rest) facts c f =
      let x = failure dispatch_task_error i text in
      failed-Counts wall _ _ x facts _ _ (
        counts rest (record_failed wall (to_string x) facts) c
          (failed_small wall (to_string x) facts))
  counts ((i, (wall, Joined.panicked text)) ∷ rest) facts c f =
      let x = failure dispatch_task_panic i text in
      failed-Counts wall _ _ x facts _ _ (
        counts rest (record_failed wall (to_string x) facts) c
          (failed_small wall (to_string x) facts))
  counts ((i, (wall, Joined.cancelled text)) ∷ rest) facts c f =
      let x = failure dispatch_task_cancelled i text in
      failed-Counts wall _ _ x facts _ _ (
        counts rest (record_failed wall (to_string x) facts) c
          (failed_small wall (to_string x) facts))

  named :
      (kind : TriggerDispatchFailureKind) (i : Identity) (reason : List ℕ)
      → Names kind i reason (failure kind i reason)
  named kind i reason = record {
    same_kind = refl;
    same_trigger = refl;
    same_service = refl;
    same_seq = refl;
    same_message = refl;
    same_reason = refl;
  }

  fits : (ends : Ends) (facts : Option TriggerFacts) → AllFit ends (observe_all ends facts).1
  unfolding observe_all observe_dispatch_task
  fits [] facts = tt
  fits ((i, (wall, Joined.finished (ok tt))) ∷ rest) facts = (tt, fits rest _)
  fits ((i, (wall, Joined.finished (err (DispatchError.typed x)))) ∷ rest) facts =
      (refl, fits rest _)
  fits ((i, (wall, Joined.finished (err (DispatchError.other text)))) ∷ rest) facts =
      (named dispatch_task_error i text, fits rest _)
  fits ((i, (wall, Joined.panicked text)) ∷ rest) facts =
      (named dispatch_task_panic i text, fits rest _)
  fits ((i, (wall, Joined.cancelled text)) ∷ rest) facts =
      (named dispatch_task_cancelled i text, fits rest _)

  -- From counters below 2^64, the facts of a trigger count each task that returned `Ok` as completed
  -- and each one that returned an error, panicked or was cancelled as failed, modulo 2^64; the
  -- dispatched ones and the retries stay, and the last error is the text of the last failure that
  -- the event loop learns of, if there is one. The loop learns of success from the first ones only,
  -- of a typed failure as it is, and of each other end by a failure of its kind that names the
  -- dispatch.
  pub observe_all-Counts :
      (ends : Ends) (facts : TriggerFacts)
      → facts.completed_total < 2 ^ 64
      → facts.failed_total < 2 ^ 64
      → Counts facts
          (successes ends)
          (failures ends)
          (observe_all ends (some facts)).1
          (observe_all ends (some facts)).0
        × AllFit ends (observe_all ends (some facts)).1
  observe_all-Counts ends facts c f = (counts ends facts c f, fits ends (some facts))
