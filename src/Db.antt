-- ===== src/Db.antt =====
-- app/db: the addresses of the database, its engines and its sessions.
pub mod Uris
pub mod Sessions
pub mod Laws
pub mod Samples
mod Tests
