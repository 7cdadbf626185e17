-- ===== src/Query.antt =====
-- query.py and statement.py: the builders of statements.
pub mod Names
pub mod Spans
pub mod Grammar
pub mod Filter
pub mod Binding
pub mod Objects
pub mod Reading
pub mod ReadBack
pub mod Statement
pub mod Safe
pub mod Checked
pub mod Writes
mod Tests
