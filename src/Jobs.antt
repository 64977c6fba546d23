-- ===== src/Jobs.antt =====
-- src/jobs.rs: the registry of asynchronous jobs.
pub mod Types
pub mod Queues
pub mod Store
pub mod Submit
pub mod Views
pub mod Callbacks
pub mod Leases
pub mod Cancel
pub mod Expiry
pub mod Prune
pub mod Steps
pub mod Effects
pub mod Outcomes
pub mod Held
pub mod Calls
pub mod Start
pub mod Valid
