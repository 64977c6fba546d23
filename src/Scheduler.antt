-- ===== src/Scheduler.antt =====
-- src/scheduler.rs, and the handlers of src/jobs.rs and src/workers.rs: requests that use the jobs and
-- the workers together.
pub mod State
pub mod Handlers
pub mod Finish
pub mod Preview
pub mod Requests
pub mod Slots
