-- ===== src/Ipc.antt =====
-- Interprocess communication (ipc/).
pub mod Messages
pub mod Shared
pub mod Listeners
