-- ===== src/Cache.antt =====
-- cache.py.
pub mod Statements
pub mod Operations
pub mod Loading
mod Tests
