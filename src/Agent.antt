-- ===== src/Agent.antt =====
-- The agent in the guest: crates/nova-agent.
pub mod Vsock
pub mod Command
