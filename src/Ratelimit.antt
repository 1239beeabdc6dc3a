-- ===== src/Ratelimit.antt =====
-- Rate limiting: internal/ratelimit.
pub mod Counters
pub mod Classic
pub mod Limits
pub mod Recording
pub mod Windows
pub mod WindowBounds
pub mod Cache
pub mod Composite
pub mod Precheck
pub mod Stale
pub mod Tests
pub mod Quota
