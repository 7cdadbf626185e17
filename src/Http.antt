-- ===== src/Http.antt =====
-- http.py: the session of the HTTP client, and one request with its resend.
pub mod Refusals
pub mod Session
pub mod Noting
pub mod Attempts
pub mod Resends
pub mod Health
pub mod Files
pub mod Routes
pub mod Paths
pub mod Answers
mod Tests
mod RouteTests
