-- ===== src/Boot.antt =====
-- Loading a Linux kernel: crates/nova-boot.
pub mod Error
pub mod Params
pub mod Cmdline
pub mod Cpio
pub mod BzImage
pub mod LongMode
pub mod Pvh
pub mod Elf
