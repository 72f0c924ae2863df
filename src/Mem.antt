-- ===== src/Mem.antt =====
-- Guest physical memory: crates/nova-mem.
pub mod Address
pub mod Region
pub mod Memory
pub mod Access
pub mod Layout
pub mod Contiguous
pub mod Dirty
