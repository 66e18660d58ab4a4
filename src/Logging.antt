-- ===== src/Logging.antt =====
-- app/logging/logging_config.py: which log lines are written where, and what they carry.
pub mod Levels
pub mod Frames
pub mod Loggers
pub mod Routing
pub mod Unknown
pub mod Hex
pub mod Extra
mod Tests
