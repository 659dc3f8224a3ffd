-- ===== src/Game.antt =====
-- src/game: the game server and its messages.
pub mod Arrays
pub mod GsclTypes
pub mod Gscl
pub mod Clgs
pub mod Server
mod Tests
