-- ===== src/Auth.antt =====
-- Who a request comes from: internal/proxy/auth_middleware.go.
pub mod Members
pub mod Hydration
pub mod Revocation
pub mod Keys
pub mod Issued
pub mod Accounts
pub mod Middleware
pub mod Entered
pub mod Authenticated
pub mod Tests
