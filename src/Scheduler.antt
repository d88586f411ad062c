-- ===== src/Scheduler.antt =====
-- The schedulers (scheduler/).
pub mod Enhanced
pub mod Gaming
