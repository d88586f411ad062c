-- ===== src/Boot.antt =====
-- The boot loader (boot/bootloader.cpp).
pub mod Image
pub mod MemoryMap
pub mod Pci
pub mod Cpu
pub mod Stages
mod Tests
