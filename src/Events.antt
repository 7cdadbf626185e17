-- ===== src/Events.antt =====
-- _events.py: a batch of events as TessariQL source.
pub mod Quoting
pub mod Literals
mod Tests
