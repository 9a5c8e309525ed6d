-- ===== src/Recovery.antt =====
-- core-console/backend/recover_bootstrap.go: the recovery links that reset an operator's password.
pub mod Token
pub mod Nonces
pub mod Submit
mod Tests
