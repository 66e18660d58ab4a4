-- ===== src/Limits.antt =====
-- Rate limits: app/limits.py.
pub mod Strategies
pub mod Limiter
pub mod Laws
pub mod Admissions
pub mod Factories
pub mod Keys
mod Tests
