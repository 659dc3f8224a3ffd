-- ===== src/Game/GsclTypes.antt =====
-- src/game/gscl_types.hpp: the structs that the messages of the game server carry. Numbers are in the
-- range of their field, a double is its bit pattern, and a string its UTF-8 bytes.
pub mod LogonInfo
pub mod ItemInfo
pub mod GiftInfo
pub mod ChannelUser
pub mod ChannelInfo
pub mod RoomInfo
pub mod RoomMember
pub mod AvatarInfo
pub mod StartGameInfo
pub mod RoomSlotUser
pub mod RankEntry
pub mod RankInfo
pub mod RoundTrip
