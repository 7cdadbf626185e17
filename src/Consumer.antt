-- ===== src/Consumer.antt =====
-- consumer.py: reading a topic as a member of a group, and settling each message.
pub mod Statements
pub mod Loop
pub mod Numbered
mod Tests
