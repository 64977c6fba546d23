-- ===== src/Workers.antt =====
-- src/workers.rs: the workers, their slots, and who may be given work.
pub mod Types
pub mod Registry
pub mod Views
pub mod Valid
pub mod Slots
