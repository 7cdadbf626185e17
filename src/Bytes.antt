-- ===== src/Bytes.antt =====
-- _bytes.py: the primitives of the value layer, both directions, and UTF-8 as Python's codec has it.
pub mod Endian
pub mod Utf8
pub mod Replace
pub mod Writer
pub mod Reader
pub mod Reads
pub mod RoundTrip
pub mod Fuel
pub mod Order
mod Tests
pub mod Extends
