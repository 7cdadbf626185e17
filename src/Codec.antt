-- ===== src/Codec.antt =====
-- _encode.py and _decode.py: the value codec.
pub mod Tags
pub mod Encode
pub mod Decode
pub mod RoundTrip
pub mod Fuel
pub mod Strict
pub mod Canonical
pub mod Unordered
mod Tests
