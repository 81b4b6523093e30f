-- ===== src/Waves.antt =====
-- service-daemon/src/core/service_daemon/runner/wave.rs: services are started and stopped in waves of one
-- priority. What the two functions do to the services is a list of events, in the order of the code;
-- `wait_for_healthy` only waits. The services of a wave end in any order; here it is that of the wave.
pub mod Grouping
pub mod Order
pub mod Stops
use service_daemon_rs.Prelude.{
  ℕ, Bool, true, false, not, ◌&&◌, List, [], ◌∷◌, ◌++◌, reverse, ltb, ◌==◌, if◌then◌else◌,
}
use service_daemon_rs.Diagnostics.{ServiceScheduling}

-- What the waves read of a `ServiceDescription`.
pub record Service : Type 0 where
  pub id : ℕ
  pub priority : ℕ
  pub scheduling : ServiceScheduling

-- `ServiceWave`, with its key in the `BTreeMap`.
pub record Wave : Type 0 where
  pub priority : ℕ
  pub services : List Service

-- `waves.entry(priority).or_default().push(service)`, on the map as a list by rising priority.
unfoldable pub insert : Service → List Wave → List Wave
insert s [] = record { priority = s.priority; services = s ∷ [] } ∷ []
insert s (w ∷ ws) =
    let rest = insert s ws in
    if ltb s.priority w.priority
    then record { priority = s.priority; services = s ∷ [] } ∷ w ∷ ws
    else if s.priority == w.priority
    then record w { services = w.services ++ s ∷ [] } ∷ ws
    else w ∷ rest

unfoldable pub insert_all : List Wave → List Service → List Wave
insert_all ws [] = ws
insert_all ws (s ∷ ss) = insert_all (insert s ws) ss

-- `ServiceWave::from_services`.
abbrev pub from_services : List Service → List Wave
from_services services = insert_all [] services

-- `spawned`: the supervisor runs. `refused`: the status becomes `Terminated`, as its lane is missing.
-- `waited`: `wait_for_healthy` is over. `signalled`: the token is cancelled, and the status is
-- `ShuttingDown`. `ended`: the task was joined or aborted, and the status is `Terminated`.
pub data Event : Type 0 where
  spawned refused signalled ended : Service → Event
  waited : ℕ → Event
  daemon_cancelled : Event

abbrev is_high_priority : ServiceScheduling → Bool
is_high_priority ServiceScheduling.high_priority = true
is_high_priority s = false

-- Whether a service needs the runtime of high priority and there is none.
abbrev pub lacks_lane : Bool → Service → Bool
lacks_lane has_high_priority s = is_high_priority s.scheduling && not has_high_priority

-- The inner loop of `spawn_all_services`, and whether it came to its end.
unfoldable pub spawn_wave : Bool → List Service → List Event × Bool
spawn_wave has_high_priority [] = ([], true)
spawn_wave has_high_priority (s ∷ ss) =
    let (events, finished) = spawn_wave has_high_priority ss in
    if lacks_lane has_high_priority s
    then (refused s ∷ daemon_cancelled ∷ [], false)
    else (spawned s ∷ events, finished)

-- The loop over the waves. The list is what each round reads of the daemon's token; past its end the
-- token is not cancelled.
unfoldable pub spawn_waves : Bool → List Bool → List Wave → List Event
spawn_waves has_high_priority reads [] = []
spawn_waves has_high_priority [] (w ∷ ws) =
    let rest = spawn_waves has_high_priority [] ws in
    let (events, finished) = spawn_wave has_high_priority w.services in
    if finished then events ++ waited w.priority ∷ rest else events
spawn_waves has_high_priority (is_cancelled ∷ reads) (w ∷ ws) =
    let rest = spawn_waves has_high_priority reads ws in
    let (events, finished) = spawn_wave has_high_priority w.services in
    if is_cancelled then [] else if finished then events ++ waited w.priority ∷ rest else events

-- `spawn_all_services`.
unfoldable pub spawn_all_services : Bool → List Bool → List Service → List Event
spawn_all_services has_high_priority reads services =
    spawn_waves has_high_priority reads (reverse (from_services services))

unfoldable pub signal_wave : List Service → List Event
signal_wave [] = []
signal_wave (s ∷ ss) = signalled s ∷ signal_wave ss

-- `has_task`: the service's task is in `running_tasks`.
unfoldable pub end_wave : (Service → Bool) → List Service → List Event
end_wave has_task [] = []
end_wave has_task (s ∷ ss) =
    let rest = end_wave has_task ss in if has_task s then ended s ∷ rest else rest

unfoldable pub stop_waves : (Service → Bool) → List Wave → List Event
stop_waves has_task [] = daemon_cancelled ∷ []
stop_waves has_task (w ∷ ws) =
    signal_wave w.services ++ (end_wave has_task w.services ++ stop_waves has_task ws)

-- `stop_all_services`.
unfoldable pub stop_all_services : (Service → Bool) → List Service → List Event
stop_all_services has_task services = stop_waves has_task (from_services services)
