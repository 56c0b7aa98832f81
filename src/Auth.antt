-- ===== src/Auth.antt =====
-- server/internal/auth: users and groups, the throttle of logins, the second factor, the login, and
-- the rotation of refresh tokens.
pub mod Limiter
pub mod Refresh
pub mod Accounts
pub mod TwoFactor
pub mod Login
