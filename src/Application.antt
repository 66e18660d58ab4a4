-- ===== src/Application.antt =====
-- The application as app/main.py puts it together: its routers, and what a request to one of its
-- routes has to pass.
pub mod Routers
pub mod Create
pub mod Guards
pub mod Endpoints
pub mod Responses
pub mod Answers
pub mod Samples
mod Tests
