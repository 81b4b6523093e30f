-- ===== src/TriggerRunner.antt =====
-- service-daemon/src/core/trigger_runner: elastic concurrency and retries of trigger dispatches.
pub mod Gate
pub mod Scaling
pub mod Dispatch
pub mod EventLoop
pub mod Retry
