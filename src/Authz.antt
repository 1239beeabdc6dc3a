-- ===== src/Authz.antt =====
-- Authorization: internal/authz.
pub mod Permissions
pub mod Roles
pub mod Access
pub mod Policies
pub mod Capabilities
pub mod Grants
pub mod Checks
pub mod Valid
pub mod Conditions
pub mod Tests
