-- ===== src/Game/Gscl.antt =====
-- src/game/gscl_proxy.hpp: the messages of the game server to its clients.
pub mod Id
pub mod Channels
pub mod Rooms
pub mod Items
pub mod Lobby
