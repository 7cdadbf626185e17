-- ===== src/Answer.antt =====
-- _answer.py and outcome.py: the outcomes of an answer frame.
pub mod Outcome
pub mod Read
pub mod Bodies
pub mod Resume
mod Tests
