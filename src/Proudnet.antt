-- ===== src/Proudnet.antt =====
-- src/proudnet: the ProudNet layer under the three servers.
pub mod MessageType
pub mod CoreRmi
pub mod Types
pub mod Peer
pub mod Server
pub mod Loop
