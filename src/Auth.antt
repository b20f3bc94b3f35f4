-- ===== src/Auth.antt =====
-- internal/auth/auth.go and the part of internal/users that a login runs.
pub mod Password
pub mod Model
pub mod Sessions
pub mod Handlers
pub mod Access
pub mod Login
pub mod Credentials
