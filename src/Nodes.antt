-- ===== src/Nodes.antt =====
-- core-console/backend/noderegistry.go: the registry of nodes.
pub mod Record
pub mod Registry
mod Tests
