-- ===== src/Crypto.antt =====
-- The encoding of API keys: internal/crypto.
pub mod Base62
pub mod RoundTrip
pub mod Tests
