-- ===== src/TriggerRunner/EventLoop.antt =====
-- core/trigger_runner/event_loop.rs and drain.rs: `run_with_host`. What the `select!` chooses in each turn,
-- with what the chosen branch reads, is an event; the loop takes the events one by one. The dispatches
-- in flight are counted. Policies, permits and the facts of a dispatch are left to other modules.
pub mod Drain
pub mod Settled
pub mod Shutdown
use service_daemon_rs.Prelude.{
  ℕ, zero, suc, ◌+◌, ◌-◌, Bool, true, false, ◌&&◌, List, [], ◌∷◌, ◌++◌, ◌==◌, if◌then◌else◌, Option,
  none, some, map_or, Result, ok, err,
}
use service_daemon_rs.Supervisor.Exit.{TriggerDispatchFailureKind, dispatch_permit_acquire_failed}
use service_daemon_rs.Diagnostics.Failures.{
  ShutdownBoundaryOutcomeSnapshot, ShutdownBoundaryStats, ShutdownBoundaryKind,
  ShutdownBoundaryResultKind, ShutdownResidualActionKind, record_boundary,
}

abbrev pub DispatchTaskOutcome : Type 0
DispatchTaskOutcome = Result (Unit {0}) TriggerDispatchFailureKind

pub record TriggerDrainOutcome : Type 0 where
  pub completed : ℕ
  pub failed : ℕ
  pub timed_out : Bool
  pub residual : ℕ

unfoldable pub diagnostics_outcome : TriggerDrainOutcome → ShutdownBoundaryOutcomeSnapshot
diagnostics_outcome o = record {
  boundary = ShutdownBoundaryKind.trigger_dispatch_drain;
  result =
      if o.timed_out
      then ShutdownBoundaryResultKind.timed_out
      else ShutdownBoundaryResultKind.completed;
  action =
      if o.timed_out
      then ShutdownResidualActionKind.recorded_and_detached
      else ShutdownResidualActionKind.nothing;
  completed = o.completed;
  failed = o.failed;
  residual = o.residual;
}

-- The variables of the loop. `drain_residual` is what the future of the drain's timeout holds, and
-- `boundary` the counters of the generation that `record_drain_outcome` writes. `recorded` lists what is
-- recorded, and `started` and `ended` count the dispatches; no code reads these three.
pub record EventLoop : Type 0 where
  pub in_flight : ℕ
  pub shutdown_draining : Bool
  pub shutdown_drain_completed : ℕ
  pub shutdown_drain_failed : ℕ
  pub drain_residual : ℕ
  pub boundary : ShutdownBoundaryStats
  pub recorded : List TriggerDrainOutcome
  pub started : ℕ
  pub ended : ℕ

-- The branches: an outcome of a dispatch in flight, the end of the drain's timeout, the end of the scale
-- monitor, the shutdown signal, and the transitions of the host. A dispatch gets its permit or not. A
-- reload waits for a shutdown, while outcomes come; a stop drains, unless a shutdown is under way.
pub data Event : Type 0 where
  outcome : DispatchTaskOutcome → Event
  drain_elapsed : Event
  monitor_ended : DispatchTaskOutcome → Event
  shutdown : Event
  next : (permitted : Bool) → Event
  reload :
      (permitted : Bool) (waited : List DispatchTaskOutcome) (is_shutdown : Bool)
      (drained : List DispatchTaskOutcome)
      → Event
  stop : (is_shutdown : Bool) (drained : List DispatchTaskOutcome) → Event

-- The loop goes on, waits inside of `drain_in_flight`, or has returned.
pub data Turn : Type 0 where
  going waiting : EventLoop → Turn
  returned : EventLoop → DispatchTaskOutcome → Turn

-- `TriggerRunner::record_drain_outcome`.
unfoldable pub record_drain_outcome : TriggerDrainOutcome → EventLoop → EventLoop
unfolding diagnostics_outcome record_boundary
record_drain_outcome o s = record s {
  boundary = record_boundary (diagnostics_outcome o) s.boundary;
  recorded = s.recorded ++ (o ∷ []);
}

-- The outcome of the loop's counters.
abbrev pub drain_outcome : EventLoop → Bool → ℕ → TriggerDrainOutcome
drain_outcome s timed_out residual = record {
  completed = s.shutdown_drain_completed;
  failed = s.shutdown_drain_failed;
  timed_out = timed_out;
  residual = residual;
}

-- `in_flight.next()`, which a loop without a dispatch in flight does not choose.
abbrev pub taken : EventLoop → EventLoop
taken s = record s { in_flight = s.in_flight - 1; ended = s.ended + 1 }

unfoldable pub on_outcome : DispatchTaskOutcome → EventLoop → Turn
unfolding record_drain_outcome
on_outcome (ok done) s =
    let t = taken s in
    let u = record t { shutdown_drain_completed = t.shutdown_drain_completed + 1 } in
    if t.shutdown_draining
    then (if u.in_flight == 0
        then returned (record_drain_outcome (drain_outcome u false 0) u) (ok tt)
        else going u)
    else going t
on_outcome (err failure) s =
    let t = taken s in
    let u = record t { shutdown_drain_failed = t.shutdown_drain_failed + 1 } in
    if t.shutdown_draining
    then returned (record_drain_outcome (drain_outcome u false u.in_flight) u) (err failure)
    else returned t (err failure)

-- `drain_in_flight`, over the outcomes that come.
unfoldable pub drain_in_flight : List DispatchTaskOutcome → EventLoop → Turn
drain_in_flight [] s = if s.in_flight == 0 then returned s (ok tt) else waiting s
drain_in_flight (o ∷ rest) s = elim (s.in_flight == 0) [
  | true ↦ returned s (ok tt)
  | false ↦ elim o [
    | ok done ↦ drain_in_flight rest (taken s)
    | err failure ↦ returned (taken s) (err failure)
  ]
]

-- `TriggerLoopAction::Stop`.
unfoldable pub on_stop : Bool → List DispatchTaskOutcome → EventLoop → Turn
unfolding drain_in_flight
on_stop is_shutdown drained s =
    if is_shutdown then returned s (ok tt) else drain_in_flight drained s

-- The wait of `TriggerTransition::Reload`, and the stop that its shutdown comes to.
unfoldable pub reload_wait :
    List DispatchTaskOutcome → Bool → List DispatchTaskOutcome → EventLoop → Turn
unfolding on_stop
reload_wait [] is_shutdown drained s = on_stop is_shutdown drained s
reload_wait (o ∷ rest) is_shutdown drained s = elim (s.in_flight == 0) [
  | true ↦ on_stop is_shutdown drained s
  | false ↦ elim o [
    | ok done ↦ reload_wait rest is_shutdown drained (taken s)
    | err failure ↦ returned (taken s) (err failure)
  ]
]

-- `in_flight.push`, at the end of `dispatch`.
abbrev pub pushed : EventLoop → EventLoop
pushed s = record s { in_flight = s.in_flight + 1; started = s.started + 1 }

abbrev pub no_permit : DispatchTaskOutcome
no_permit = err dispatch_permit_acquire_failed

-- The shutdown signal.
unfoldable pub on_shutdown : EventLoop → Turn
on_shutdown s =
    if s.in_flight == 0
    then returned s (ok tt)
    else going (record s {
      shutdown_draining = true;
      shutdown_drain_completed = 0;
      shutdown_drain_failed = 0;
      drain_residual = s.in_flight;
    })

-- One turn. A branch whose guard fails is not chosen: the event leaves the loop as it is.
unfoldable pub turn : Event → EventLoop → Turn
unfolding on_outcome record_drain_outcome on_shutdown on_stop reload_wait
turn (outcome o) s = if s.in_flight == 0 then going s else on_outcome o s
turn drain_elapsed s =
    if s.shutdown_draining
    then returned (record_drain_outcome (drain_outcome s true s.drain_residual) s) (ok tt)
    else going s
turn (monitor_ended o) s = returned s o
turn shutdown s = if s.shutdown_draining then going s else on_shutdown s
turn (next permitted) s =
    if s.shutdown_draining
    then going s
    else if permitted
    then going (pushed s)
    else returned s no_permit
turn (reload permitted waited is_shutdown drained) s =
    if s.shutdown_draining
    then going s
    else if permitted
    then reload_wait waited is_shutdown drained (pushed s)
    else returned s no_permit
turn (stop is_shutdown drained) s =
    if s.shutdown_draining then going s else on_stop is_shutdown drained s

unfoldable pub run_with_host : List Event → EventLoop → Turn
unfolding turn
run_with_host [] s = going s
run_with_host (e ∷ events) s = elim (turn e s) [
  | going t ↦ run_with_host events t
  | waiting t ↦ waiting t
  | returned t result ↦ returned t result
]

-- The loop at its start, with the counters of its generation.
abbrev pub fresh : ShutdownBoundaryStats → EventLoop
fresh stats = record {
  in_flight = 0;
  shutdown_draining = false;
  shutdown_drain_completed = 0;
  shutdown_drain_failed = 0;
  drain_residual = 0;
  boundary = stats;
  recorded = [];
  started = 0;
  ended = 0;
}
