-- ===== src/Jobs/Effects.antt =====
-- src/jobs.rs: what the two sweeps do to each job.
pub mod Expiry
pub mod Prune
pub mod Final
pub mod Reports
pub mod Claim
pub mod Submit
pub mod Others
