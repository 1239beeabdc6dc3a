-- ===== src/Delivery.antt =====
-- Orders and subscriptions: internal/store/orders.go and subscriptions.go.
pub mod Orders
pub mod Once
pub mod Sale
pub mod Sweep
pub mod Lapsed
pub mod Tests
