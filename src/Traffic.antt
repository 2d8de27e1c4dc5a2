-- ===== src/Traffic.antt =====
-- crates/runtime/src/traffic.rs: tenant policy, token-weighted hierarchical admission, release,
-- cancellation and drain. The children follow the order of the source.
pub mod Policy
pub mod State
pub mod Candidates
pub mod Schedule
pub mod Admission
pub mod Drain
pub mod Counters
pub mod Invariant
