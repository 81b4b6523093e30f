-- ===== src/Examples/EventLoops.antt =====
-- The theorems on the event loop of a trigger at concrete inputs.
use service_daemon_rs.Prelude.{refl, true, List, [], ◌∷◌, ◌++◌, ok}
use service_daemon_rs.Diagnostics.Failures.{no_boundaries}
use service_daemon_rs.TriggerRunner.EventLoop.{EventLoop, Event, run_with_host, fresh}
use service_daemon_rs.TriggerRunner.EventLoop.Drain.{IsSettled}
use service_daemon_rs.TriggerRunner.EventLoop.Settled.{run_with_host-IsSettled}
use service_daemon_rs.TriggerRunner.EventLoop.Shutdown.{HasDrained, completions, shutdown_drains}

-- One of two dispatches completes in the drain, and the timeout ends it.
abbrev timed_out : List Event
timed_out =
    Event.next true
    ∷ Event.next true
    ∷ Event.shutdown
    ∷ Event.outcome (ok tt)
    ∷ Event.drain_elapsed
    ∷ []

run_with_host-IsSettled_example : IsSettled (run_with_host timed_out (fresh no_boundaries))
run_with_host-IsSettled_example = run_with_host-IsSettled timed_out no_boundaries

abbrev busy : EventLoop
busy = record (fresh no_boundaries) { in_flight = 2; started = 2 }

shutdown_drains_example :
    HasDrained 2 (run_with_host (Event.shutdown ∷ completions 2 ++ (Event.next true ∷ [])) busy)
shutdown_drains_example = shutdown_drains 1 busy (Event.next true ∷ []) refl refl refl
