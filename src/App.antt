-- ===== src/App.antt =====
-- The application (app).
pub mod Lifecycle
