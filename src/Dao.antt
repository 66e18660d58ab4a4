-- ===== src/Dao.antt =====
-- The data access objects: app/legacy/dao.
pub mod Rows
pub mod Lookups
pub mod Serializers
pub mod Writes
pub mod Once
pub mod Laws
pub mod Samples
mod Tests
