-- ===== src/Auth.antt =====
-- core-console/backend/auth.go: the operators of the console, their sign-in and their sessions.
pub mod Operator
pub mod Accounts
pub mod Password
pub mod Identity
pub mod Devices
pub mod Session
pub mod Totp
pub mod ApiToken
pub mod Login
pub mod Calls
pub mod Startup
mod Tests
