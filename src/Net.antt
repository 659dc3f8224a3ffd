-- ===== src/Net.antt =====
-- src/net: the message format and the framing of the TCP byte stream.
pub mod Bytes
pub mod Message
pub mod Framing
mod Tests
