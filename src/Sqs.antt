-- ===== src/Sqs.antt =====
-- The producer of messages for SQS: app/legacy/clients/sqs.py.
pub mod Envelopes
pub mod Producer
pub mod Order
pub mod Failures
pub mod Sent
pub mod Delivered
mod Tests
