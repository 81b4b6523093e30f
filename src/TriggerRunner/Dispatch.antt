-- ===== src/TriggerRunner/Dispatch.antt =====
-- core/trigger_runner/dispatch.rs: `build_chain`, `run_dispatch_with_timeout` and
-- `observe_dispatch_task`; and `TriggerDispatchFailure` of core/trigger_runner/failure.rs. The permits of
-- a dispatch and its policy are left to other modules.
pub mod Observed
pub mod Onion
use service_daemon_rs.Prelude.{
  ℕ, Bool, if◌then◌else◌, Option, none, some, List, [], ◌∷◌, reverse, Result, ok, err,
}
use service_daemon_rs.RuntimeFacts.{TriggerFacts, record_completed, record_failed}
use service_daemon_rs.Supervisor.Exit.{
  TriggerDispatchFailureKind, dispatch_task_error, dispatch_task_panic, dispatch_task_cancelled,
  dispatch_timed_out,
}

pub record TriggerDispatchFailure : Type 0 where
  pub kind : TriggerDispatchFailureKind
  pub trigger_name : List ℕ
  pub service_id : ℕ
  pub instance_seq : Option ℕ
  pub message_id : Option ℕ
  pub reason : List ℕ

-- An `anyhow::Error` by what it downcasts to here.
pub data DispatchError : Type 0 where
  typed : TriggerDispatchFailure → DispatchError
  other : List ℕ → DispatchError

-- What the join of a task gives: its result, or a `JoinError` with its text.
pub data Joined : Type 0 where
  finished : Result (Unit {0}) DispatchError → Joined
  panicked cancelled : List ℕ → Joined

-- The dispatch that a failure names.
pub record Identity : Type 0 where
  pub name : List ℕ
  pub id : ℕ
  pub seq : ℕ
  pub message : ℕ

-- `TriggerDispatchFailure::new`, with the identity of a dispatch.
abbrev pub failure : TriggerDispatchFailureKind → Identity → List ℕ → TriggerDispatchFailure
failure kind i reason = record {
  kind = kind;
  trigger_name = i.name;
  service_id = i.id;
  instance_seq = some i.seq;
  message_id = some i.message;
  reason = reason;
}

-- The fold of `build_chain`, over the interceptors from the last to the first.
abbrev pub wrap {ℓ κ} : {C : Type ℓ} {R : Type κ} → List (C → (C → R) → R) → (C → R) → C → R
wrap [] next = next
wrap (interceptor ∷ rest) next = wrap rest λ ctx. interceptor ctx next

-- `TriggerRunner::build_chain`: an interceptor takes the context of the dispatch and the rest of the
-- chain.
unfoldable pub build_chain {ℓ κ} :
    {C : Type ℓ} {R : Type κ} → List (C → (C → R) → R) → (C → R) → C → R
build_chain interceptors terminal = wrap (reverse interceptors) terminal

-- `run_dispatch_with_timeout`, with the result of the dispatch if it is awaited, whether tokio's timeout
-- of a length elapses before it, and the text that it then gives.
unfoldable pub run_dispatch_with_timeout :
    Result (Unit {0}) DispatchError
    → (ℕ → Bool)
    → (ℕ → List ℕ)
    → Option ℕ
    → Identity
    → Result (Unit {0}) DispatchError
run_dispatch_with_timeout dispatch elapses reason none i = dispatch
run_dispatch_with_timeout dispatch elapses reason (some timeout) i =
    if elapses timeout
    then err (DispatchError.typed (failure dispatch_timed_out i (reason timeout)))
    else dispatch

-- `if let Some(runtime_facts)`, which each arm writes.
abbrev pub on_facts : (TriggerFacts → TriggerFacts) → Option TriggerFacts → Option TriggerFacts
on_facts f none = none
on_facts f (some facts) = some (f facts)

-- `Display for TriggerDispatchFailure` is `to_string`.
module _ (to_string : TriggerDispatchFailure → List ℕ) where
  -- `TriggerRunner::observe_dispatch_task`, once the task is joined at a time.
  unfoldable pub observe_dispatch_task :
      Identity
      → ℕ
      → Joined
      → Option TriggerFacts
      → Option TriggerFacts × Result (Unit {0}) TriggerDispatchFailure
  unfolding record_completed record_failed
  observe_dispatch_task i wall (Joined.finished (ok done)) facts =
      (on_facts (record_completed wall) facts, ok tt)
  observe_dispatch_task i wall (Joined.finished (err (DispatchError.typed f))) facts =
      (on_facts (record_failed wall (to_string f)) facts, err f)
  observe_dispatch_task i wall (Joined.finished (err (DispatchError.other text))) facts =
      let f = failure dispatch_task_error i text in
      (on_facts (record_failed wall (to_string f)) facts, err f)
  observe_dispatch_task i wall (Joined.panicked text) facts =
      let f = failure dispatch_task_panic i text in
      (on_facts (record_failed wall (to_string f)) facts, err f)
  observe_dispatch_task i wall (Joined.cancelled text) facts =
      let f = failure dispatch_task_cancelled i text in
      (on_facts (record_failed wall (to_string f)) facts, err f)
