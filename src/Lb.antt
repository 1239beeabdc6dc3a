-- ===== src/Lb.antt =====
-- Load balancing: internal/proxy/lb.
pub mod Balancer
pub mod Weighted
pub mod LeastConn
pub mod Select
pub mod Members
pub mod Tracker
pub mod Metrics
pub mod Tests
