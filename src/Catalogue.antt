-- ===== src/Catalogue.antt =====
-- The model catalogue: internal/modelcatalog.
pub mod Catalog
pub mod Lookup
pub mod Normalize
pub mod Tests
