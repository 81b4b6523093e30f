-- ===== src/Examples/Dispatches.antt =====
-- The theorems on the dispatches of a trigger at concrete inputs.
use service_daemon_rs.Prelude.{ℕ, ◌+◌, ◌*◌, ◌≡◌, arith, none, some, List, [], ◌∷◌, ok, err}
use service_daemon_rs.RuntimeFacts.{TriggerFacts}
use service_daemon_rs.TriggerRunner.Dispatch.{
  TriggerDispatchFailure, DispatchError, Joined, Identity, build_chain,
}
use service_daemon_rs.TriggerRunner.Dispatch.Observed.{
  Ends, observe_all, Counts, observe_all-Counts, AllFit,
}
use service_daemon_rs.TriggerRunner.Dispatch.Onion.{onion, build_chain-onion}

abbrev interceptors : List (ℕ → (ℕ → ℕ) → ℕ)
interceptors = (λ ctx next. next (ctx + 1) * 2) ∷ (λ ctx next. next (ctx * 3)) ∷ []

build_chain-onion_example :
    build_chain interceptors (λ ctx. ctx + 5) 2 ≡ onion interceptors (λ ctx. ctx + 5) 2
build_chain-onion_example = build_chain-onion interceptors (λ ctx. ctx + 5) 2

abbrev nth_dispatch : ℕ → Identity
nth_dispatch seq = record { name = 0x74 ∷ []; id = 4; seq = seq; message = 90 + seq }

abbrev ends : Ends
ends =
    (nth_dispatch 0, (10, Joined.finished (ok tt)))
    ∷ (nth_dispatch 2, (11, Joined.panicked (0x70 ∷ [])))
    ∷ (nth_dispatch 1, (12, Joined.finished (err (DispatchError.other (0x65 ∷ [])))))
    ∷ []

abbrev dispatched : TriggerFacts
dispatched = record {
  dispatched_total = 3;
  completed_total = 0;
  failed_total = 0;
  retry_total = 0;
  last_event_at = some 9;
  last_success_at = none;
  last_error_at = none;
  last_error = none;
}

observe_all-Counts_example :
    let seen = observe_all TriggerDispatchFailure.reason ends (some dispatched) in
    Counts TriggerDispatchFailure.reason dispatched 1 2 seen.1 seen.0 × AllFit ends seen.1
observe_all-Counts_example =
    observe_all-Counts TriggerDispatchFailure.reason ends dispatched (omega arith) (omega arith)
