-- ===== src/Eye.antt =====
-- The sensor pipeline: crates/nova-eye, crates/nova-eye-common and crates/nova-eye-agent.
pub mod Events
pub mod Sources
pub mod Forward
pub mod Pipeline
