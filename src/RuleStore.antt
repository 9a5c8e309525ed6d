-- ===== src/RuleStore.antt =====
-- core-console/backend/alertrules.go: the persistent, user-editable alert rules and rule groups.
pub mod Def
pub mod Validate
pub mod Store
mod Tests
