-- ===== src/Policy.antt =====
-- service-daemon/src/models/policy.rs: the shared policies, a module for each of its types.
pub mod Scaling
pub mod Storm
pub mod Restart
pub mod Backoff
pub mod Overlay
