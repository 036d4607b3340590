-- ===== src/Warehouse.antt =====
-- src/millrace/warehouse/
pub mod Loader
pub mod Tests
