-- ===== src/Validation.antt =====
-- src/millrace/validation/
pub mod Audit
pub mod Identifiers
pub mod Models
pub mod Publication
pub mod Canonical
pub mod Service
pub mod Tests
pub mod Comparison
pub mod Snowflake
