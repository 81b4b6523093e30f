-- ===== src/ProviderInit/Boundary/Crossings.antt =====
-- What is left in the diagnostics of a task after failures have crossed the boundary.
use mathlib.Core.List.{append-nil, append_assoc}
use service_daemon_rs.Diagnostics.{bump}
use service_daemon_rs.Prelude.{
  if◌then◌else◌, ◌&&◌, Option-cases, inl, inr, ℕ, ◌+◌, ◌%◌, ◌^◌, ◌≡◌, refl, ap, Option, none, some,
  List, [], ◌∷◌, ◌++◌, arith, Result, ok, err, map_or, Option-cases, inl, inr,
}
use service_daemon_rs.Prelude.Recent.{last_n, push_recent-last_n}
use service_daemon_rs.Diagnostics.Failures.{
  ProviderFailureSnapshot, ProviderFailureStats, ProviderFailureKind, record_failure, count_failure,
  ProviderFailureRuntimePhase,
}
use service_daemon_rs.ProviderInit.{
  ProviderInitError, ProviderInitFailure, ProviderRuntimePhase, boundary_from, phase_from,
  classify_provider_init_error, source_from, kind_from,
}
use service_daemon_rs.ProviderInit.Boundary.{
  is_generation_resolve, need_reload, TaskContext, GenerationFailures, ProviderInitBoundaryContext,
  provider_failure_snapshot, provider_init_failure_boundary, provider_init_failure_into_error,
  record_provider_failure_diagnostics, record_for_daemon, record_for_generation, with_current_phase,
  current_provider_runtime_phase, ServiceStatus, provider_failure_retry_diagnostics_snapshot,
}

-- The counters of failures add up.
pub record IsBalanced (s : ProviderFailureStats) : Type 0 where
  pub added : s.total ≡ (s.fatal + s.timeout + s.cancelled) % 2 ^ 64

record_failure-IsBalanced :
    (failure : ProviderFailureSnapshot) (s : ProviderFailureStats)
    → IsBalanced s
    → IsBalanced (record_failure failure s)
unfolding record_failure
record_failure-IsBalanced failure s b = counted failure.failure_kind
  where
    counted :
        (kind : ProviderFailureKind)
        → IsBalanced (record (count_failure kind (record s { total = bump s.total })) {
          last_failure = some failure;
        })
    counted ProviderFailureKind.fatal = record { added = omega (arith, b.added) }
    counted ProviderFailureKind.timeout = record { added = omega (arith, b.added) }
    counted ProviderFailureKind.cancelled = record { added = omega (arith, b.added) }

-- The phase to be recorded while a task runs in one.
abbrev pub running_phase : ProviderRuntimePhase → ServiceStatus → ProviderFailureRuntimePhase
running_phase ProviderRuntimePhase.service_generation_resolve ServiceStatus.need_reload =
    ProviderFailureRuntimePhase.reload_generation_resolve
running_phase phase status = phase_from phase

-- The phase to be recorded: that of the boundary where it has one, otherwise that of the task.
abbrev pub phase_told : TaskContext → ProviderRuntimePhase → ProviderFailureRuntimePhase
phase_told task ProviderRuntimePhase.unknown =
    map_or task.phase ProviderFailureRuntimePhase.unknown λ phase. running_phase phase task.state
phase_told task phase = phase_from phase

running-lem :
    (phase : ProviderRuntimePhase) (status : ServiceStatus)
    → phase_from (
        if is_generation_resolve phase && need_reload status
        then ProviderRuntimePhase.reload_generation_resolve
        else phase)
      ≡ running_phase phase status
unfolding phase_from
running-lem ProviderRuntimePhase.unknown status = refl
running-lem ProviderRuntimePhase.startup_eager_init status = refl
running-lem ProviderRuntimePhase.reload_generation_resolve status = refl
running-lem ProviderRuntimePhase.trigger_dispatch_resolve status = refl
running-lem ProviderRuntimePhase.framework_validation status = refl
running-lem ProviderRuntimePhase.service_generation_resolve ServiceStatus.initializing = refl
running-lem ProviderRuntimePhase.service_generation_resolve ServiceStatus.restoring = refl
running-lem ProviderRuntimePhase.service_generation_resolve ServiceStatus.healthy = refl
running-lem ProviderRuntimePhase.service_generation_resolve ServiceStatus.need_reload = refl
running-lem ProviderRuntimePhase.service_generation_resolve ServiceStatus.shutting_down = refl
running-lem ProviderRuntimePhase.service_generation_resolve ServiceStatus.terminated = refl
running-lem ProviderRuntimePhase.service_generation_resolve (ServiceStatus.recovering m) = refl

task-lem :
    (task : TaskContext)
    → phase_from (current_provider_runtime_phase task)
      ≡ phase_told task ProviderRuntimePhase.unknown
unfolding current_provider_runtime_phase
task-lem task = elim (Option-cases task.phase) [
  | inl e ↦ rw e (unfold phase_from in refl)
  | inr (phase, e) ↦ rw e (running-lem phase task.state)
]

-- The phase that is recorded is the one that is to be.
phase_told-lem :
    (task : TaskContext) (context : ProviderInitBoundaryContext)
    → phase_from (with_current_phase task context).phase ≡ phase_told task context.phase
unfolding with_current_phase phase_from
phase_told-lem task context = by_phase context.phase refl
  where
    by_phase :
        (phase : ProviderRuntimePhase)
        → context.phase ≡ phase
        → phase_from (with_current_phase task context).phase ≡ phase_told task context.phase
    by_phase ProviderRuntimePhase.unknown e = rw e (task-lem task)
    by_phase ProviderRuntimePhase.startup_eager_init e = rw e refl
    by_phase ProviderRuntimePhase.service_generation_resolve e = rw e refl
    by_phase ProviderRuntimePhase.reload_generation_resolve e = rw e refl
    by_phase ProviderRuntimePhase.trigger_dispatch_resolve e = rw e refl
    by_phase ProviderRuntimePhase.framework_validation e = rw e refl

same_place :
    (task : TaskContext) (context : ProviderInitBoundaryContext)
    → ((with_current_phase task context).provider ≡ context.provider)
      × ((with_current_phase task context).boundary ≡ context.boundary)
unfolding with_current_phase
same_place task context = (ground arith, ground arith)

abbrev pub kind_told : ProviderInitError → ProviderFailureKind
kind_told (ProviderInitError.fatal provider message) = ProviderFailureKind.fatal
kind_told (ProviderInitError.timeout provider limit last_error) = ProviderFailureKind.timeout
kind_told (ProviderInitError.cancelled provider) = ProviderFailureKind.cancelled

module _ (T : Type 0) (to_string : ProviderInitError → List ℕ) where
  -- What is to be recorded of a failure.
  abbrev pub told :
      TaskContext → ProviderInitBoundaryContext → ProviderInitFailure → ProviderFailureSnapshot
  told task context failure = record {
    provider = context.provider;
    phase = phase_told task context.phase;
    boundary = boundary_from context.boundary;
    source = source_from failure.source;
    failure_kind = kind_told failure.error;
    retry =
        map_or failure.retry_diagnostics none
          λ diagnostics. some (provider_failure_retry_diagnostics_snapshot diagnostics);
    error = to_string failure.error;
  }

  kind_told-lem :
      (error : ProviderInitError) → kind_from (classify_provider_init_error error) ≡ kind_told error
  unfolding classify_provider_init_error
  kind_told-lem (ProviderInitError.fatal provider message) = refl
  kind_told-lem (ProviderInitError.timeout provider limit last_error) = refl
  kind_told-lem (ProviderInitError.cancelled provider) = refl

  told-lem :
      (task : TaskContext) (context : ProviderInitBoundaryContext) (failure : ProviderInitFailure)
      → provider_failure_snapshot to_string task context failure ≡ told task context failure
  unfolding provider_failure_snapshot
  told-lem task context failure =
      let place = same_place task context in
      rw (phase_told-lem task context, kind_told-lem failure.error, place.0, place.1) refl

  -- Results that cross the boundary, each with its context, and the failures that are among them.
  abbrev pub Crossing : Type 0
  Crossing = ProviderInitBoundaryContext × Result T ProviderInitFailure

  unfoldable pub cross_all : TaskContext → List Crossing → TaskContext
  cross_all task [] = task
  cross_all task ((context, result) ∷ rest) =
      cross_all (provider_init_failure_boundary to_string task context result).0 rest

  -- What is to be recorded of the failures among them, in their order.
  abbrev pub failures_of : TaskContext → List Crossing → List ProviderFailureSnapshot
  failures_of task [] = []
  failures_of task ((context, ok value) ∷ rest) = failures_of task rest
  failures_of task ((context, err failure) ∷ rest) =
      told task context failure ∷ failures_of task rest

  -- Nothing that a snapshot reads is changed by recording one.
  failures_of-recorded :
      (failure : ProviderFailureSnapshot) (task : TaskContext) (list : List Crossing)
      → failures_of (record_provider_failure_diagnostics failure task) list ≡ failures_of task list
  unfolding record_provider_failure_diagnostics
  failures_of-recorded failure task [] = refl
  failures_of-recorded failure task ((context, ok value) ∷ rest) =
      failures_of-recorded failure task rest
  failures_of-recorded failure task ((context, err failed) ∷ rest) =
      ap (λ l. told task context failed ∷ l) (failures_of-recorded failure task rest)

  recorded-daemon :
      (failure : ProviderFailureSnapshot) (task : TaskContext) (past : List ProviderFailureSnapshot)
      → task.daemon_diagnostics ≡ some (last_n 128 past)
      → (record_provider_failure_diagnostics failure task).daemon_diagnostics
        ≡ some (last_n 128 (past ++ (failure ∷ [])))
  unfolding record_provider_failure_diagnostics record_for_daemon
  recorded-daemon failure task past h =
      rw h (ap some (push_recent-last_n 128 failure past (omega arith)))

  -- However many results cross the boundary, the daemon keeps the last 128 failures among them and
  -- before them, in their order. Each is told with the phase of its boundary where that has one, and
  -- otherwise with the task's: a generation that is resolved counts as reloaded while its service
  -- needs a reload, and a task without a phase is told as unknown.
  pub cross_all-last_n :
      (task : TaskContext) (list : List Crossing) (past : List ProviderFailureSnapshot)
      → task.daemon_diagnostics ≡ some (last_n 128 past)
      → (cross_all task list).daemon_diagnostics ≡ some (last_n 128 (past ++ failures_of task list))
  unfolding cross_all provider_init_failure_boundary provider_init_failure_into_error
  cross_all-last_n task [] past h = rw append-nil h
  cross_all-last_n task ((context, ok value) ∷ rest) past h = cross_all-last_n task rest past h
  cross_all-last_n task ((context, err failure) ∷ rest) past h =
      let failed = told task context failure in
      let later =
        cross_all-last_n (record_provider_failure_diagnostics failed task) rest
          (past ++ (failed ∷ [])) (recorded-daemon failed task past h) in
      rw (cross_all, told-lem task context failure)
        (rw (failures_of-recorded failed task rest, append_assoc) at later)

  -- The counters of the task's generation, of its service and of its lane add up.
  abbrev pub AreBalanced : Option GenerationFailures → Type 0
  AreBalanced none = Unit
  AreBalanced (some g) = IsBalanced g.generation × IsBalanced g.service × IsBalanced g.lane

  recorded-AreBalanced :
      (failure : ProviderFailureSnapshot) (o : Option GenerationFailures)
      → AreBalanced o
      → AreBalanced (map_or o none λ g. some (record_for_generation failure g))
  unfolding record_for_generation
  recorded-AreBalanced failure none b = tt
  recorded-AreBalanced failure (some g) b = (
    record_failure-IsBalanced failure g.generation b.0,
    record_failure-IsBalanced failure g.service b.1,
    record_failure-IsBalanced failure g.lane b.2,
  )

  -- In the counters of the task's generation, of its service and of its lane the total stays the sum
  -- of the counts of the three kinds of failure, modulo 2^64.
  pub cross_all-AreBalanced :
      (task : TaskContext) (list : List Crossing)
      → AreBalanced task.generation_diagnostics
      → AreBalanced (cross_all task list).generation_diagnostics
  unfolding cross_all provider_init_failure_boundary provider_init_failure_into_error
      record_provider_failure_diagnostics
  cross_all-AreBalanced task [] b = b
  cross_all-AreBalanced task ((context, ok value) ∷ rest) b = cross_all-AreBalanced task rest b
  cross_all-AreBalanced task ((context, err failure) ∷ rest) b =
      let failed = provider_failure_snapshot to_string task context failure in
      cross_all-AreBalanced (record_provider_failure_diagnostics failed task) rest
        (recorded-AreBalanced failed task.generation_diagnostics b)
