-- ===== src/Runtime.antt =====
-- Sandboxes, the pool of warm VMs and the caches: crates/nova-runtime.
pub mod Error
pub mod Pool
pub mod Sandbox
pub mod Blobs
pub mod Rootfs
pub mod Snapshots
