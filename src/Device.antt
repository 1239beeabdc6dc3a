-- ===== src/Device.antt =====
-- Device codes: internal/store/device_codes.go and the poll for tokens in
-- internal/admin/device_flow.go.
pub mod Codes
pub mod Polls
pub mod Consumed
pub mod Tests
