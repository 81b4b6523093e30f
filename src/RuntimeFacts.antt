-- ===== src/RuntimeFacts.antt =====
-- service-daemon/src/core/runtime_facts.rs: `ServiceRuntimeState` of one service and what is recorded
-- in it; and `ServiceStatus` of models/service.rs. A time is the reading of the wall clock.
use service_daemon_rs.Prelude.{ℕ, Option, none, some, List}
use service_daemon_rs.Prelude.Words.{saturating_add, u64_max, wrapping_add64}

pub data ServiceStatus : Type 0 where
  initializing restoring healthy need_reload shutting_down terminated : ServiceStatus
  recovering : List ℕ → ServiceStatus

pub record ServiceRuntimeState : Type 0 where
  pub generation : ℕ
  pub restart_count : ℕ
  pub last_started_at : Option ℕ
  pub last_stopped_at : Option ℕ
  pub last_error : Option (List ℕ)
  pub current_backoff : Option ℕ
  pub healthy_since : Option ℕ

-- `Default for ServiceRuntimeState`.
abbrev pub no_facts : ServiceRuntimeState
no_facts = record {
  generation = 0;
  restart_count = 0;
  last_started_at = none;
  last_stopped_at = none;
  last_error = none;
  current_backoff = none;
  healthy_since = none;
}

-- `get_or_insert_with(Utc::now)`.
abbrev pub or_insert : ℕ → Option ℕ → Option ℕ
or_insert wall none = some wall
or_insert wall (some t) = some t

unfoldable pub record_status_facts : ℕ → ServiceStatus → ServiceRuntimeState → ServiceRuntimeState
record_status_facts wall ServiceStatus.healthy f = record f {
  healthy_since = or_insert wall f.healthy_since;
  current_backoff = none;
}
record_status_facts wall (ServiceStatus.recovering message) f = record f {
  healthy_since = none;
  last_error = some message;
  last_stopped_at = some wall;
}
record_status_facts wall ServiceStatus.terminated f = record f {
  healthy_since = none;
  last_stopped_at = some wall;
  current_backoff = none;
}
record_status_facts wall ServiceStatus.initializing f = record f {
  healthy_since = none;
  current_backoff = none;
}
record_status_facts wall ServiceStatus.restoring f = record f {
  healthy_since = none;
  current_backoff = none;
}
record_status_facts wall ServiceStatus.need_reload f = record f { healthy_since = none }
record_status_facts wall ServiceStatus.shutting_down f = record f {
  healthy_since = none;
  last_stopped_at = or_insert wall f.last_stopped_at;
}

-- `record_service_started` on a service that is registered.
unfoldable pub record_service_started :
    ℕ → ℕ → ServiceStatus → ServiceRuntimeState → ServiceRuntimeState
record_service_started wall generation status f = record_status_facts wall status (record f {
  generation = generation;
  last_started_at = some wall;
  current_backoff = none;
  healthy_since = none;
})

-- `record_service_restart` on a service that is registered.
unfoldable pub record_service_restart : Option ℕ → ServiceRuntimeState → ServiceRuntimeState
record_service_restart backoff f = record f {
  restart_count = saturating_add u64_max f.restart_count 1;
  current_backoff = backoff;
}

-- The counters of `TriggerRuntimeRecord`, which wrap around, and the parts of its timeline that are
-- ever written.
pub record TriggerFacts : Type 0 where
  pub dispatched_total : ℕ
  pub completed_total : ℕ
  pub failed_total : ℕ
  pub retry_total : ℕ
  pub last_event_at : Option ℕ
  pub last_success_at : Option ℕ
  pub last_error_at : Option ℕ
  pub last_error : Option (List ℕ)

-- `TriggerRuntimeFactsHandle`: its methods, with the wall clock's reading.
unfoldable pub record_dispatched : ℕ → TriggerFacts → TriggerFacts
record_dispatched wall f = record f {
  dispatched_total = wrapping_add64 f.dispatched_total 1;
  last_event_at = some wall;
}

unfoldable pub record_completed : ℕ → TriggerFacts → TriggerFacts
record_completed wall f = record f {
  completed_total = wrapping_add64 f.completed_total 1;
  last_success_at = some wall;
}

unfoldable pub record_failed : ℕ → List ℕ → TriggerFacts → TriggerFacts
record_failed wall message f = record f {
  failed_total = wrapping_add64 f.failed_total 1;
  last_error_at = some wall;
  last_error = some message;
}

unfoldable pub record_retry : ℕ → List ℕ → TriggerFacts → TriggerFacts
record_retry wall message f = record f {
  retry_total = wrapping_add64 f.retry_total 1;
  last_error_at = some wall;
  last_error = some message;
}
