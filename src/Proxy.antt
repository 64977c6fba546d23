-- ===== src/Proxy.antt =====
-- src/proxy/mod.rs: a client's request is sent to one backend after another until one of them serves
-- it. The children: what a request and a reply are (Types), who may serve it (Selection), the loop of
-- attempts (Forward), and the proofs.
pub mod Types
pub mod Labels
pub mod Selection
pub mod Forward
pub mod Allowed
pub mod Moved
pub mod Chosen
pub mod Attempts
pub mod Ends
pub mod Replies
pub mod Answers
pub mod Permits
pub mod Resourced
pub mod Counts
pub mod Exhausted
