-- ===== src/Sms.antt =====
-- SMS notifications: app/legacy/v2/notifications.
pub mod Identifiers
pub mod Patterns
pub mod Requests
pub mod Tasks
pub mod Fields
pub mod Templates
pub mod Scanning
pub mod Personalising
pub mod Handler
pub mod Push
pub mod Emails
pub mod Valid
pub mod Vanity
pub mod PlainNumbers
pub mod Unsent
pub mod Marks
pub mod Replacing
pub mod Filling
pub mod Outbound
pub mod Accepted
mod PushTests
pub mod Sending
pub mod Suitable
pub mod Delivery
pub mod Endpoint
pub mod Chains
pub mod Samples
mod Tests
mod Runs
mod OutboundTests
