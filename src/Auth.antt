-- ===== src/Auth.antt =====
-- Authentication: app/auth.py, and the secrets of app/legacy/dao/api_keys_dao.py.
pub mod Secrets
pub mod Tokens
pub mod Service
pub mod Bearer
pub mod Admin
pub mod Timeliness
pub mod Keys
pub mod TokenErrors
pub mod Authentication
pub mod Accepted
pub mod Samples
mod Tests
