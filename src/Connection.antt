-- ===== src/Connection.antt =====
-- connection.py: a session over one socket, and a subscription that takes it over.
pub mod Messages
pub mod Session
pub mod Feed
pub mod Credentials
pub mod Sending
pub mod Presented
pub mod Asking
pub mod Resuming
mod Tests
