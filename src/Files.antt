-- ===== src/Files.antt =====
-- filesystem: paths, mount points, descriptors and the caches.
pub mod Paths
pub mod Descriptors
pub mod Pool
pub mod Cache
pub mod Reading
