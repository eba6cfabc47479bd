-- ===== src/Auth.antt =====
-- Signing in and staying signed in: src/modules/auth.
pub mod Tokens
pub mod Refresh
pub mod Jwt
pub mod Login
pub mod Recovery
pub mod Totp
pub mod TwoFactor
pub mod Register
pub mod Me
pub mod Keys
