-- ===== src/Queue.antt =====
-- queue.py: claiming records as a worker, and settling each.
pub mod Statements
pub mod Jobs
pub mod Loop
pub mod Settled
pub mod Ending
mod Tests
