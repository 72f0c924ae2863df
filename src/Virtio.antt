-- ===== src/Virtio.antt =====
-- Virtio queues, transport and devices: crates/nova-virtio.
pub mod Queue
pub mod Trait
pub mod Mmio
pub mod Config
pub mod Balloon
pub mod Net
