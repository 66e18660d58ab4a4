-- ===== src/Routes.antt =====
-- The responses to failed requests: app/routers.py.
pub mod Handlers
pub mod Messages
mod Tests
