-- ===== src/Ui.antt =====
-- ui: the window manager.
pub mod Windows
pub mod Events
