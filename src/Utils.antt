-- ===== src/Utils.antt =====
-- The kernel's shared utilities (src/utils): error values and the identifier gate.
pub mod Errors
pub mod Validate
