-- ===== src/Messenger.antt =====
-- src/messenger: the messenger server.
pub mod Clms
pub mod Mscl
pub mod Messages
pub mod Server
