-- ===== src/Pricing.antt =====
-- What a request costs: the credit rates of internal/types/policy.go and the settlement of extra
-- usage in internal/proxy/executor.go and image_extra_usage_cost.go.
pub mod Rates
pub mod ImageInput
pub mod Settlement
pub mod Tests
