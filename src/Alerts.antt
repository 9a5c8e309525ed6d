-- ===== src/Alerts.antt =====
-- core-console/backend/alerts.go and alertrules.go: the alert engine and the store of its rules.
pub mod Rule
pub mod Event
pub mod Notify
pub mod Dispatch
pub mod Debounce
pub mod Evolve
pub mod Engine
pub mod Admin
mod Tests
