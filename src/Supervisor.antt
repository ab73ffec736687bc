-- ===== src/Supervisor.antt =====
-- The plugin supervisor (src/plugins/supervisor).
pub mod State
pub mod Monitor
pub mod Backoff
