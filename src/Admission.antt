-- ===== src/Admission.antt =====
-- Who may send a request, and at whose cost: the middlewares of internal/proxy.
pub mod Eligibility
pub mod Gates
pub mod Guards
pub mod Paid
pub mod Covered
pub mod PerModel
pub mod Charged
pub mod Models
pub mod Listed
pub mod ModelTests
pub mod Tests
