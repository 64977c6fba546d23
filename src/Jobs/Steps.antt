-- ===== src/Jobs/Steps.antt =====
-- src/jobs.rs as a state machine: what one call may do to the state behind the lock.
pub mod Relation
pub mod Leases
pub mod Others
