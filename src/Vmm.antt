-- ===== src/Vmm.antt =====
-- The device bus, the serial port and the capture loops of the VMM: crates/nova-vmm.
pub mod Serial
pub mod Bus
pub mod Capture
pub mod Snapshot
pub mod Run
pub mod Match
