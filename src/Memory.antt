-- ===== src/Memory.antt =====
-- The physical memory components (memory/).
pub mod PageAllocator
pub mod EnhancedAllocator
pub mod Unified
pub mod Compression
pub mod Graphics
pub mod Resources
pub mod Game
