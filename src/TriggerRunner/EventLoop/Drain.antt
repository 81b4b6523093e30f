-- ===== src/TriggerRunner/EventLoop/Drain.antt =====
-- The outcomes, the drain and the stop of a trigger's loop keep what is counted.
use service_daemon_rs.Prelude.{
  ◌+◌, ◌≡◌, refl, Bool, true, false, List, [], ◌∷◌, arith, ◌==◌, if◌then◌else◌, ok, err, Bool-cases,
  inl, inr,
}
use service_daemon_rs.Supervisor.Exit.{TriggerDispatchFailureKind}
use service_daemon_rs.TriggerRunner.EventLoop.{
  DispatchTaskOutcome, TriggerDrainOutcome, EventLoop, Turn, record_drain_outcome, drain_outcome,
  taken, on_outcome, drain_in_flight, on_stop,
}

-- The dispatches that were started are in flight or have ended, and in a drain those that were in flight
-- at its start are in flight still or counted; nothing is recorded yet.
pub record IsRunning (s : EventLoop) : Type 0 where
  pub balanced : s.started ≡ s.in_flight + s.ended
  pub draining :
      s.shutdown_draining ≡ true
      → (s.drain_residual ≡ s.in_flight + s.shutdown_drain_completed)
        × (s.shutdown_drain_failed ≡ 0)
  pub silent : s.recorded ≡ []

-- What a recorded outcome tells of the loop that recorded it.
pub record Tells (s : EventLoop) (o : TriggerDrainOutcome) : Type 0 where
  pub total : s.drain_residual ≡ s.in_flight + o.completed + o.failed
  pub residual : o.residual ≡ (if o.timed_out then s.in_flight + o.completed else s.in_flight)

abbrev pub Told : EventLoop → List TriggerDrainOutcome → Type 0
Told s [] = Unit
Told s (o ∷ []) = Tells s o
Told s (o ∷ p ∷ rest) = ⊥

-- The same at every end.
abbrev pub IsSettled : Turn → Type 0
IsSettled (Turn.going s) = IsRunning s
IsSettled (Turn.waiting s) = (s.started ≡ s.in_flight + s.ended) × Told s s.recorded
IsSettled (Turn.returned s result) = (s.started ≡ s.in_flight + s.ended) × Told s s.recorded

pub if-IsSettled :
    (b : Bool) (x y : Turn)
    → (b ≡ true → IsSettled x)
    → (b ≡ false → IsSettled y)
    → IsSettled (if b then x else y)
if-IsSettled true x y p q = p refl
if-IsSettled false x y p q = q refl

-- Outside of a drain nothing has to be counted.
pub calm-IsRunning :
    (s : EventLoop)
    → s.started ≡ s.in_flight + s.ended
    → s.shutdown_draining ≡ false
    → s.recorded ≡ []
    → IsRunning s
calm-IsRunning s b h r = record {
  balanced = b;
  draining = λ d. absurd (ground (arith, d, h));
  silent = r;
}

silent-Told : (s : EventLoop) → s.recorded ≡ [] → Told s s.recorded
silent-Told s h = rw h tt

pub settles :
    (s : EventLoop) → IsRunning s → (s.started ≡ s.in_flight + s.ended) × Told s s.recorded
settles s r = (r.balanced, silent-Told s r.silent)

pub taken-IsRunning :
    (s : EventLoop)
    → IsRunning s
    → s.shutdown_draining ≡ false
    → (s.in_flight == 0) ≡ false
    → IsRunning (taken s)
taken-IsRunning s r h n = calm-IsRunning (taken s) (ground (arith, r.balanced, n)) h r.silent

-- One record after none.
pub recorded-Told :
    (o : TriggerDrainOutcome) (s : EventLoop)
    → s.recorded ≡ []
    → Tells s o
    → Told (record_drain_outcome o s) (record_drain_outcome o s).recorded
unfolding record_drain_outcome
recorded-Told o s h t = rw h (record { total = t.total; residual = t.residual })

pub on_outcome-IsSettled :
    (o : DispatchTaskOutcome) (s : EventLoop)
    → IsRunning s
    → (s.in_flight == 0) ≡ false
    → IsSettled (on_outcome o s)
unfolding on_outcome
on_outcome-IsSettled (ok done) s r n =
    let t = taken s in
    let u = record t { shutdown_drain_completed = t.shutdown_drain_completed + 1 } in
    let last : TriggerDrainOutcome = drain_outcome u false 0 in
    if-IsSettled t.shutdown_draining _ _
      (λ d.
        if-IsSettled (u.in_flight == 0) _ _
          (λ z. (
            ground (arith, r.balanced, n),
            recorded-Told last u r.silent
                record { total = ground (arith, r.draining d, z, n); residual = ground (arith, z) },
          ))
          (λ z. record {
            balanced = ground (arith, r.balanced, n);
            draining = λ d'. ground (arith, r.draining d, n);
            silent = r.silent;
          }))
      (λ d. taken-IsRunning s r d n)
on_outcome-IsSettled (err failure) s r n =
    let t = taken s in
    let u = record t { shutdown_drain_failed = t.shutdown_drain_failed + 1 } in
    let last : TriggerDrainOutcome = drain_outcome u false u.in_flight in
    if-IsSettled t.shutdown_draining _ _
      (λ d. (
        ground (arith, r.balanced, n),
        recorded-Told last u r.silent
            record { total = ground (arith, r.draining d, n); residual = refl },
      ))
      (λ d. settles t (taken-IsRunning s r d n))

drain_in_flight_over :
    (o : DispatchTaskOutcome) (rest : List DispatchTaskOutcome) (s : EventLoop)
    → (s.in_flight == 0) ≡ true
    → drain_in_flight (o ∷ rest) s ≡ Turn.returned s (ok tt)
unfolding drain_in_flight
drain_in_flight_over o rest s h = ground (arith, h)

drain_in_flight_goes :
    (rest : List DispatchTaskOutcome) (s : EventLoop)
    → (s.in_flight == 0) ≡ false
    → drain_in_flight (ok tt ∷ rest) s ≡ drain_in_flight rest (taken s)
unfolding drain_in_flight
drain_in_flight_goes rest s h = ground (arith, h)

drain_in_flight_stops :
    (failure : TriggerDispatchFailureKind) (rest : List DispatchTaskOutcome) (s : EventLoop)
    → (s.in_flight == 0) ≡ false
    → drain_in_flight (err failure ∷ rest) s ≡ Turn.returned (taken s) (err failure)
unfolding drain_in_flight
drain_in_flight_stops failure rest s h = ground (arith, h)

drain_in_flight-IsSettled :
    (outcomes : List DispatchTaskOutcome) (s : EventLoop)
    → IsRunning s
    → s.shutdown_draining ≡ false
    → IsSettled (drain_in_flight outcomes s)
unfolding drain_in_flight
drain_in_flight-IsSettled [] s r d =
    if-IsSettled (s.in_flight == 0) _ _ (λ z. settles s r) (λ z. settles s r)
drain_in_flight-IsSettled (ok tt ∷ rest) s r d = elim (Bool-cases (s.in_flight == 0)) [
  | inl z ↦ rw (drain_in_flight_over (ok tt) rest s z) (settles s r)
  | inr n ↦
      rw (drain_in_flight_goes rest s n)
        (drain_in_flight-IsSettled rest (taken s) (taken-IsRunning s r d n) d)
]
drain_in_flight-IsSettled (err failure ∷ rest) s r d = elim (Bool-cases (s.in_flight == 0)) [
  | inl z ↦ rw (drain_in_flight_over (err failure) rest s z) (settles s r)
  | inr n ↦
      rw (drain_in_flight_stops failure rest s n) (settles (taken s) (taken-IsRunning s r d n))
]

pub on_stop-IsSettled :
    (is_shutdown : Bool) (drained : List DispatchTaskOutcome) (s : EventLoop)
    → IsRunning s
    → s.shutdown_draining ≡ false
    → IsSettled (on_stop is_shutdown drained s)
unfolding on_stop
on_stop-IsSettled is_shutdown drained s r d =
    if-IsSettled is_shutdown _ _ (λ z. settles s r) (λ z. drain_in_flight-IsSettled drained s r d)
