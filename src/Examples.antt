-- ===== src/Examples.antt =====
-- The theorems at concrete inputs, over simple versions of what the program takes from elsewhere.
mod Instances
mod Policies
mod Triggers
mod Overlays
mod Scheduling
mod Supervision
mod Waves
mod Retries
mod Providers
mod Registries
mod EventLoops
mod Dispatches
mod Generations
