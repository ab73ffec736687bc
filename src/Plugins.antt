-- ===== src/Plugins.antt =====
-- The start of the configured plugins (src/plugins).
pub mod Loader
pub mod Start
