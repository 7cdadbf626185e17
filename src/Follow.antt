-- ===== src/Follow.antt =====
-- _follow.py: following a redirect to the node that should answer, and `Connection.execute`.
pub mod Selection
pub mod Hops
pub mod Bounds
pub mod Plain
mod Tests
