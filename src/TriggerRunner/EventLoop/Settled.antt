-- ===== src/TriggerRunner/EventLoop/Settled.antt =====
-- What the loop of a trigger leaves of its dispatches, and what it records of a drain.
use service_daemon_rs.Prelude.{
  ◌≡◌, refl, ◌⊎◌, Bool, true, false, List, [], ◌∷◌, arith, ◌==◌, ok, err, Bool-cases, inl, inr,
}
use service_daemon_rs.Supervisor.Exit.{TriggerDispatchFailureKind}
use service_daemon_rs.Diagnostics.Failures.{ShutdownBoundaryStats}
use service_daemon_rs.TriggerRunner.EventLoop.{
  DispatchTaskOutcome, EventLoop, Event, Turn, drain_outcome, taken, on_stop, reload_wait, pushed,
  on_shutdown, turn, run_with_host, fresh,
}
use service_daemon_rs.TriggerRunner.EventLoop.Drain.{
  IsRunning, IsSettled, if-IsSettled, calm-IsRunning, settles, taken-IsRunning, recorded-Told,
  on_outcome-IsSettled, on_stop-IsSettled,
}

reload_wait_over :
    (o : DispatchTaskOutcome) (rest drained : List DispatchTaskOutcome) (is_shutdown : Bool)
    (s : EventLoop)
    → (s.in_flight == 0) ≡ true
    → reload_wait (o ∷ rest) is_shutdown drained s ≡ on_stop is_shutdown drained s
unfolding reload_wait
reload_wait_over o rest drained is_shutdown s h = ground (arith, h)

reload_wait_goes :
    (rest drained : List DispatchTaskOutcome) (is_shutdown : Bool) (s : EventLoop)
    → (s.in_flight == 0) ≡ false
    → reload_wait (ok tt ∷ rest) is_shutdown drained s
      ≡ reload_wait rest is_shutdown drained (taken s)
unfolding reload_wait
reload_wait_goes rest drained is_shutdown s h = ground (arith, h)

reload_wait_stops :
    (failure : TriggerDispatchFailureKind) (rest drained : List DispatchTaskOutcome)
    (is_shutdown : Bool) (s : EventLoop)
    → (s.in_flight == 0) ≡ false
    → reload_wait (err failure ∷ rest) is_shutdown drained s ≡ Turn.returned (taken s) (err failure)
unfolding reload_wait
reload_wait_stops failure rest drained is_shutdown s h = ground (arith, h)

reload_wait-IsSettled :
    (waited : List DispatchTaskOutcome) (is_shutdown : Bool) (drained : List DispatchTaskOutcome)
    (s : EventLoop)
    → IsRunning s
    → s.shutdown_draining ≡ false
    → IsSettled (reload_wait waited is_shutdown drained s)
unfolding reload_wait
reload_wait-IsSettled [] is_shutdown drained s r d = on_stop-IsSettled is_shutdown drained s r d
reload_wait-IsSettled (ok tt ∷ rest) is_shutdown drained s r d =
    elim (Bool-cases (s.in_flight == 0)) [
      | inl z ↦
          rw (reload_wait_over (ok tt) rest drained is_shutdown s z)
            (on_stop-IsSettled is_shutdown drained s r d)
      | inr n ↦
          rw (reload_wait_goes rest drained is_shutdown s n)
            (reload_wait-IsSettled rest is_shutdown drained (taken s) (taken-IsRunning s r d n) d)
    ]
reload_wait-IsSettled (err failure ∷ rest) is_shutdown drained s r d =
    elim (Bool-cases (s.in_flight == 0)) [
      | inl z ↦
          rw (reload_wait_over (err failure) rest drained is_shutdown s z)
            (on_stop-IsSettled is_shutdown drained s r d)
      | inr n ↦
          rw (reload_wait_stops failure rest drained is_shutdown s n)
            (settles (taken s) (taken-IsRunning s r d n))
    ]

pushed-IsRunning :
    (s : EventLoop) → IsRunning s → s.shutdown_draining ≡ false → IsRunning (pushed s)
pushed-IsRunning s r d = calm-IsRunning (pushed s) (omega (arith, r.balanced)) d r.silent

on_shutdown-IsSettled : (s : EventLoop) → IsRunning s → IsSettled (on_shutdown s)
unfolding on_shutdown
on_shutdown-IsSettled s r =
    if-IsSettled (s.in_flight == 0) _ _ (λ z. settles s r)
      λ z. record { balanced = r.balanced; draining = λ d. (omega arith, refl); silent = r.silent }

turn-IsSettled : (e : Event) (s : EventLoop) → IsRunning s → IsSettled (turn e s)
unfolding turn
turn-IsSettled (Event.outcome o) s r =
    if-IsSettled (s.in_flight == 0) _ _ (λ z. r) (on_outcome-IsSettled o s r)
turn-IsSettled Event.drain_elapsed s r =
    if-IsSettled s.shutdown_draining _ _
      (λ d. (
        r.balanced,
        recorded-Told (drain_outcome s true s.drain_residual) s r.silent
            record { total = ground (arith, r.draining d); residual = (r.draining d).0 },
      ))
      (λ d. r)
turn-IsSettled (Event.monitor_ended o) s r = settles s r
turn-IsSettled Event.shutdown s r =
    if-IsSettled s.shutdown_draining _ _ (λ d. r) (λ d. on_shutdown-IsSettled s r)
turn-IsSettled (Event.next permitted) s r =
    if-IsSettled s.shutdown_draining _ _ (λ d. r)
      (λ d. if-IsSettled permitted _ _ (λ p. pushed-IsRunning s r d) (λ p. settles s r))
turn-IsSettled (Event.reload permitted waited is_shutdown drained) s r =
    if-IsSettled s.shutdown_draining _ _ (λ d. r)
      (λ d.
        if-IsSettled permitted _ _
          (λ p.
            reload_wait-IsSettled waited is_shutdown drained (pushed s) (pushed-IsRunning s r d) d)
          (λ p. settles s r))
turn-IsSettled (Event.stop is_shutdown drained) s r =
    if-IsSettled s.shutdown_draining _ _ (λ d. r) (λ d. on_stop-IsSettled is_shutdown drained s r d)

-- What the loop comes to after a turn.
goes_to : List Event → Turn → Turn
goes_to events (Turn.going s) = run_with_host events s
goes_to events (Turn.waiting s) = Turn.waiting s
goes_to events (Turn.returned s result) = Turn.returned s result

run_with_host-turn :
    (e : Event) (events : List Event) (s : EventLoop) (t : Turn)
    → turn e s ≡ t
    → run_with_host (e ∷ events) s ≡ goes_to events t
unfolding run_with_host goes_to
run_with_host-turn e events s (Turn.going t) h = ground (arith, h)
run_with_host-turn e events s (Turn.waiting t) h = ground (arith, h)
run_with_host-turn e events s (Turn.returned t result) h = ground (arith, h)

Turn-cases :
    (t : Turn)
    → ((s : EventLoop) × (t ≡ Turn.going s))
      ⊎ (((events : List Event) → goes_to events t ≡ t) × Unit {0})
unfolding goes_to
Turn-cases (Turn.going s) = inl (s, refl)
Turn-cases (Turn.waiting s) = inr (λ events. refl, tt)
Turn-cases (Turn.returned s result) = inr (λ events. refl, tt)

loop-IsSettled :
    (events : List Event) (s : EventLoop) → IsRunning s → IsSettled (run_with_host events s)
unfolding run_with_host goes_to
loop-IsSettled [] s r = r
loop-IsSettled (e ∷ events) s r = elim (Turn-cases (turn e s)) [
  | inl (t, h) ↦
      rw (run_with_host-turn e events s (Turn.going t) h)
        (loop-IsSettled events t (rw h at (turn-IsSettled e s r)))
  | inr over ↦
      rw (run_with_host-turn e events s (turn e s) refl, over.0 events) (turn-IsSettled e s r)
]

-- Whatever the loop meets from its start, each dispatch that it has started is in flight or has ended. It records the
-- outcome of a drain once at most, when it returns, and then the dispatches that were in flight at
-- the start of the drain are those that are in flight still, those that completed and those that
-- failed. The residual is the number still in flight if the drain did not time out; if it did, the
-- residual counts the completed ones as well.
pub run_with_host-IsSettled :
    (events : List Event) (stats : ShutdownBoundaryStats)
    → IsSettled (run_with_host events (fresh stats))
run_with_host-IsSettled events stats =
    loop-IsSettled events (fresh stats) (calm-IsRunning (fresh stats) (omega arith) refl refl)
