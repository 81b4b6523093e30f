-- ===== src/Scheduling.antt =====
-- service-daemon/src/core/adaptive_scheduling.rs, with the observations of core/diagnostics.rs that it
-- reads: what was observed, the windows between two snapshots, and the recommendations.
pub mod Observation
pub mod Window
pub mod Evaluator
