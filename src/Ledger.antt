-- ===== src/Ledger.antt =====
-- The extra-usage ledger: internal/store/extra_usage.go.
pub mod Accounts
pub mod Balance
pub mod Deduct
pub mod Orders
pub mod Tests
