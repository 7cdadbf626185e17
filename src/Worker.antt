-- ===== src/Worker.antt =====
-- What queue.py and consumer.py share: names of workers, the loop that polls with growing waits, and
-- the loop over a batch until the worker is stopped.
pub mod Names
pub mod Answers
pub mod Polling
pub mod Waits
pub mod Ending
mod Tests
