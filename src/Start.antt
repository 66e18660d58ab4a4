-- ===== src/Start.antt =====
-- The start and the end of the application: app/main.py and app/telemetry.py.
pub mod Telemetry
pub mod Lifespan
pub mod Legacy
pub mod Release
pub mod Ready
pub mod Samples
mod Tests
