-- ===== src/Lb.antt =====
-- core-console/lb/main.go: the load balancer with active-passive failover.
pub mod Config
pub mod Controller
