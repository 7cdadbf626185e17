-- ===== src/Script.antt =====
-- script.py: what `POST /script` answers.
pub mod Outcome
pub mod Reading
pub mod Suggested
pub mod Backed
mod Tests
