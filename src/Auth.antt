-- ===== src/Auth.antt =====
-- Authorisation (src/auth).
pub mod Permissions
pub mod Jwt
pub mod Devices
