-- ===== src/AdminAuth.antt =====
-- admin-auth.service.ts and the guards of the admin routes.
pub mod Secret
pub mod Login
pub mod Totp
pub mod Lockout
pub mod Storage
pub mod Guard
pub mod Rotation
pub mod Codes
pub mod Revocation
