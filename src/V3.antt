-- ===== src/V3.antt =====
-- app/v3: version 3 of the API.
pub mod Parts
pub mod Endpoints
pub mod Devices
mod Tests
