-- ===== src/Router.antt =====
-- src/router: the circuit breakers of the backends, and the choice of a backend.
pub mod Circuit
pub mod Affinity
pub mod Fallback
pub mod Choice
pub mod Exhausted
pub mod Kept
