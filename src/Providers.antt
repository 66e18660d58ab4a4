-- ===== src/Providers.antt =====
-- app/providers: what the API asks of Amazon SNS.
pub mod Schemas
pub mod Sns
pub mod Base
pub mod Laws
pub mod Faults
pub mod Samples
mod Tests
