-- ===== src/Policy.antt =====
-- Admission, enforcement, the policy engine and its bundles: crates/nova-policy.
pub mod Engine
pub mod Admission
pub mod Enforcement
pub mod Bundle
