-- ===== src/Lib.antt =====
-- service-daemon-rs: a model of the daemon's policies, of the concurrency control of its triggers and of
-- the supervisors of its services, with theorems on them.
--
-- The parts. A `ServiceSupervisor` runs a service generation by generation and restarts it under a
-- `RestartPolicy`, with a `BackoffController` and a `RestartStormGuard`; it writes the status plane,
-- the runtime facts and the diagnostics. Services are started and stopped in waves of priority. A
-- trigger runs dispatches under a semaphore: its scale monitor changes the number of permits by a
-- `ScalingPolicy`, and the `TriggerPolicyOverlayStore` changes it, the retry policy and the timeout
-- for as long as an overlay lives; a dispatch that fails is retried. Adaptive scheduling compares
-- snapshots of the diagnostics and gives advice. At the start the eager providers that the services
-- need are initialised in the order of their graph, each of them with retries until a deadline.
--
-- The files, with the code under service-daemon/src that each is about:
--   Policy/Restart, Policy/Backoff, Policy/Storm, Policy/Scaling, Policy/Overlay: models/policy.rs
--     (`RestartPolicy`, `BackoffController`, `RestartStormGuard`, `ScalingPolicy`,
--     `TriggerPolicyOverlay`, each with its builder and checks).
--   TriggerRunner/Gate, TriggerRunner/Scaling: core/trigger_runner/scaling.rs. A `Gate` is the
--     semaphore with the limit. TriggerRunner/Scaling/Monitor: `spawn_scale_monitor`; `tick` is one turn
--     of its loop, with the overlay store or without one.
--   TriggerRunner/Retry: `RetryInterceptor` of core/trigger_runner/interceptors.rs, over a list of calls.
--   TriggerRunner/EventLoop: core/trigger_runner/event_loop.rs and drain.rs, one function per branch of
--     the loop of `run_with_host`; the branch that `select!` chooses is an event.
--   TriggerRunner/Dispatch: core/trigger_runner/dispatch.rs and failure.rs, the chain of the interceptors,
--     the timeout and the end of a dispatch; its text is a parameter.
--   OverlayStore, OverlayStore/Record: core/trigger_policy_overlay.rs, one function per method.
--   Diagnostics, Diagnostics/Failures: the counters of core/diagnostics.rs of lifecycles, of provider
--     failures and of the ends of a shutdown.
--   Diagnostics/Generations: `register_generation` and `retain_recent_generations` of core/diagnostics.rs,
--     on the keys of the map of the generations.
--   RuntimeFacts: the facts of one service, and of one trigger, in core/runtime_facts.rs.
--   Scheduling/Observation, Scheduling/Window, Scheduling/Evaluator: core/adaptive_scheduling.rs and the
--     observations of core/diagnostics.rs that it reads.
--   Interpretation: the labels of the public snapshots in models/diagnostics.rs.
--   Registry: `RegistryBuilder` of models/service.rs.
--   Supervisor, Supervisor/Exit: core/service_daemon/runner/supervisor.rs, one function per handler of
--     the state machine; `run_loop` is the loop of the same name.
--   ProviderInit: core/provider_init.rs, the words of a failure; ProviderInit/Boundary, what is recorded
--     of it where it leaves the initialisation; ProviderInit/Retry, the loop of
--     `init_fallible_with_source` over a list of rounds.
--   ProviderGraph, ProviderGraph/Eager: core/service_daemon/provider_graph.rs, the search, the graph and the
--     calls of the initialisers of `eager_init_reachable_providers`. ProviderGraph/Validation:
--     `validate_dependency_graph`, which the daemon calls before.
--   Waves: core/service_daemon/runner/wave.rs, the starts and stops as lists of events.
--   External: what comes from elsewhere, as parameters with named laws: floating-point numbers,
--     tokio's semaphore, dashmap's map and petgraph's topological sort.
--   Prelude: shared names and lemmas. Examples: the theorems at concrete inputs.
--
-- Numbers and time. A `usize`, `u64` or `u32` is a native natural number, with its saturating or
-- wrapping operations written out. A `Duration` or an `Instant` is a number of nanoseconds, and the
-- last `Instant` that of 64 bits of seconds with a sign, beyond which the sum of the two panics. What a
-- task reads from outside (clocks, random draws, a cancelled token, the branch of a `select!`) is an
-- argument. Concurrent dispatches are lists of acts that run between the steps of a loop; a call of the
-- overlay store is one step, and so are the two calls of one round of the scale monitor. The
-- loops recur over the lists of their turns, but for the search of `collect_reachable`: its fuel is the
-- number of all parameters of the services and providers, and each round takes one type from the queue,
-- which no type enters twice.
--
-- Not modelled: the log lines and audit events, the tasks and threads that run a generation, the
-- waking of waiting tasks, a reload of a trigger that no shutdown follows, and the parts of the daemon that are not named above.
pub mod Diagnostics
mod Examples
pub mod External
pub mod Interpretation
pub mod OverlayStore
pub mod Policy
pub mod Prelude
pub mod ProviderGraph
pub mod ProviderInit
pub mod Registry
pub mod RuntimeFacts
pub mod Scheduling
pub mod Supervisor
pub mod TriggerRunner
pub mod Waves
