-- ===== src/Redis.antt =====
-- The rate limit counters in Redis: app/clients/redis_client.py.
pub mod Server
pub mod Client
pub mod Counting
pub mod Answers
pub mod Phases
pub mod Interleaving
pub mod Expiry
pub mod Samples
mod Tests
