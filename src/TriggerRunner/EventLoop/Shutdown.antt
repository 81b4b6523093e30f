-- ===== src/TriggerRunner/EventLoop/Shutdown.antt =====
-- A shutdown waits for the dispatches in flight.
use service_daemon_rs.Prelude.{
  ℕ, zero, suc, ◌+◌, ◌≡◌, refl, true, false, List, [], ◌∷◌, ◌++◌, arith, ok,
}
use service_daemon_rs.TriggerRunner.EventLoop.{
  TriggerDrainOutcome, EventLoop, Event, Turn, taken, on_outcome, on_shutdown, turn, run_with_host,
  record_drain_outcome, drain_outcome,
}

-- So many dispatches complete.
abbrev pub completions : ℕ → List Event
completions zero = []
completions (suc n) = Event.outcome (ok tt) ∷ completions n

-- The drain of so many dispatches, all of which have completed.
abbrev pub complete_drain : ℕ → TriggerDrainOutcome
complete_drain n = record { completed = n; failed = 0; timed_out = false; residual = 0 }

-- The loop in its drain.
record IsDraining (in_flight completed : ℕ) (s : EventLoop) : Type 0 where
  same_flight : s.in_flight ≡ in_flight
  draining : s.shutdown_draining ≡ true
  same_completed : s.shutdown_drain_completed ≡ completed
  none_failed : s.shutdown_drain_failed ≡ 0
  silent : s.recorded ≡ []

-- A loop that has returned with nothing in flight, and with the outcome of one drain.
pub record HasDrained (n : ℕ) (t : Turn) : Type 0 where
  pub last : EventLoop
  pub returns : t ≡ Turn.returned last (ok tt)
  pub empty : last.in_flight ≡ 0
  pub told : last.recorded ≡ complete_drain n ∷ []

-- The loop after one more completion.
abbrev counted : EventLoop → EventLoop
counted s = record (taken s) { shutdown_drain_completed = s.shutdown_drain_completed + 1 }

last_turn :
    (s : EventLoop)
    → s.in_flight ≡ 1
    → s.shutdown_draining ≡ true
    → turn (Event.outcome (ok tt)) s
      ≡ Turn.returned (record_drain_outcome (drain_outcome (counted s) false 0) (counted s)) (ok tt)
unfolding turn on_outcome
last_turn s h d = ground (arith, h, d)

next_turn :
    (n : ℕ) (s : EventLoop)
    → s.in_flight ≡ suc (suc n)
    → s.shutdown_draining ≡ true
    → turn (Event.outcome (ok tt)) s ≡ Turn.going (counted s)
unfolding turn on_outcome
next_turn n s h d = ground (arith, h, d)

told_last :
    (completed : ℕ) (s : EventLoop)
    → IsDraining 1 completed s
    → (record_drain_outcome (drain_outcome (counted s) false 0) (counted s)).recorded
      ≡ complete_drain (completed + 1) ∷ []
unfolding record_drain_outcome
told_last completed s d = rw (d.silent, d.same_completed, d.none_failed) refl

empty_last :
    (s : EventLoop)
    → s.in_flight ≡ 1
    → (record_drain_outcome (drain_outcome (counted s) false 0) (counted s)).in_flight ≡ 0
unfolding record_drain_outcome
empty_last s h = omega (arith, h)

run_returned :
    (e : Event) (events : List Event) (s t : EventLoop)
    → turn e s ≡ Turn.returned t (ok tt)
    → run_with_host (e ∷ events) s ≡ Turn.returned t (ok tt)
unfolding run_with_host
run_returned e events s t h = ground (arith, h)

run_going :
    (e : Event) (events : List Event) (s t : EventLoop)
    → turn e s ≡ Turn.going t
    → run_with_host (e ∷ events) s ≡ run_with_host events t
unfolding run_with_host
run_going e events s t h = ground (arith, h)

drains :
    (n completed : ℕ) (s : EventLoop) (later : List Event)
    → IsDraining (suc n) completed s
    → HasDrained (completed + suc n) (run_with_host (completions (suc n) ++ later) s)
drains zero completed s later d = record {
  last = record_drain_outcome (drain_outcome (counted s) false 0) (counted s);
  returns = run_returned (Event.outcome (ok tt)) later s _ (last_turn s d.same_flight d.draining);
  empty = empty_last s d.same_flight;
  told = told_last completed s d;
}
drains (suc n) completed s later d =
    let sum : completed + suc (suc n) ≡ completed + 1 + suc n = omega arith in
    rw
      (
        sum,
        run_going (Event.outcome (ok tt)) (completions (suc n) ++ later) s (counted s)
            (next_turn n s d.same_flight d.draining),
      )
      (drains n (completed + 1) (counted s) later (record {
        same_flight = omega (arith, d.same_flight);
        draining = d.draining;
        same_completed = omega (arith, d.same_completed);
        none_failed = d.none_failed;
        silent = d.silent;
      }))

-- The loop at the start of its drain.
abbrev shut_down : EventLoop → EventLoop
shut_down s = record s {
  shutdown_draining = true;
  shutdown_drain_completed = 0;
  shutdown_drain_failed = 0;
  drain_residual = s.in_flight;
}

shut :
    (n : ℕ) (s : EventLoop)
    → s.in_flight ≡ suc n
    → s.shutdown_draining ≡ false
    → turn Event.shutdown s ≡ Turn.going (shut_down s)
unfolding turn on_shutdown
shut n s h d = ground (arith, h, d)

-- A shutdown does not lose the dispatches in flight. Where there is one at least, no drain is under way
-- and none is recorded, and all of them complete before the drain's timeout, the loop returns
-- without an error after the last of them, with nothing in flight, whatever would have come
-- later, and it records one drain that completed, with their number and no residual.
pub shutdown_drains :
    (n : ℕ) (s : EventLoop) (later : List Event)
    → s.in_flight ≡ suc n
    → s.shutdown_draining ≡ false
    → s.recorded ≡ []
    → HasDrained (suc n) (run_with_host (Event.shutdown ∷ completions (suc n) ++ later) s)
shutdown_drains n s later h d silent =
    let sum : 0 + suc n ≡ suc n = omega arith in
    rw (run_going Event.shutdown (completions (suc n) ++ later) s (shut_down s) (shut n s h d)) (
      rw sum at (
        drains n 0 (shut_down s) later (record {
          same_flight = h;
          draining = refl;
          same_completed = refl;
          none_failed = refl;
          silent = silent;
        })))
