-- ===== src/Net/Message.antt =====
-- src/net/message.hpp: the byte level writer and reader, and the conversion of text.
pub mod Writer
pub mod Reader
pub mod Text
pub mod Decodes
pub mod RoundTrip
