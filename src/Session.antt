-- ===== src/Session.antt =====
-- src/session: the session server.
pub mod Clss
pub mod Sscl
pub mod Server
