-- ===== src/Oncall.antt =====
-- core-console/backend/oncall.go: who is on call, and the escalation of alerts nobody acknowledged.
pub mod Rota
pub mod Escalate
mod Tests
