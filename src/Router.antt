-- ===== src/Router.antt =====
-- The routing engine: internal/proxy/router_engine.go.
pub mod Matching
pub mod Best
pub mod Match
pub mod Matrix
pub mod Sessions
pub mod Selection
pub mod Affinity
pub mod Served
pub mod Sticky
pub mod Tests
