-- ===== src/Proxy.antt =====
-- The retry loop of the proxy: internal/proxy/executor.go and codex_capacity_retry.go.
pub mod Replies
pub mod Requests
pub mod World
pub mod Capacity
pub mod Commit
pub mod Executor
pub mod Loop
pub mod Balanced
pub mod Fallbacks
pub mod Progress
pub mod Outcome
pub mod Retries
pub mod Tests
