-- ===== src/Frames.antt =====
-- _frames.py: the greeting and the frames, over a socket.
pub mod Socket
pub mod Framing
pub mod Flat
pub mod Exchange
pub mod Greeting
mod Tests
