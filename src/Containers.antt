-- ===== src/Containers.antt =====
-- _containers.py and _container_statements.py: lists, hashes, sets and rankings under a key.
pub mod Statements
pub mod Operations
pub mod Numbered
mod Tests
