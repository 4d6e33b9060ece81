-- ===== src/Auth.antt =====
-- apps/api/src/modules/auth: sessions, lockout and one-time codes.
pub mod Repository
pub mod Service
pub mod Growth
pub mod Credentials
pub mod Lockout
pub mod Threshold
pub mod Sessions
