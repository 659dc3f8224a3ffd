-- ===== src/Game/GsclTypes/RoomMember.antt =====
-- src/game/gscl_types.hpp, room_member.
use hovorun.Prelude.{ℕ, List}
use hovorun.Net.Message.Writer.{Writer, ◌▹◌, write_text, write_u32, write_u8}

pub record RoomMember : Type 0 where
  pub host : ℕ
  pub nickname : List ℕ
  pub str_24 : List ℕ
  pub user_index : ℕ
  pub u32_2c : ℕ
  pub exp : ℕ
  pub u32_04 : ℕ
  pub slot : ℕ
  pub ready : ℕ
  pub u32_0c : ℕ
  pub u32_10 : ℕ
  pub u8_35 : ℕ
  pub character : ℕ
  pub u32_14 : ℕ
  pub order : ℕ

unfoldable pub write : RoomMember → Writer → Writer
write i w =
    w
    ▹ write_u32 i.host
    ▹ write_text i.nickname
    ▹ write_text i.str_24
    ▹ write_u32 i.user_index
    ▹ write_u32 i.u32_2c
    ▹ write_u32 i.exp
    ▹ write_u32 i.u32_04
    ▹ write_u32 i.slot
    ▹ write_u8 i.ready
    ▹ write_u32 i.u32_0c
    ▹ write_u32 i.u32_10
    ▹ write_u8 i.u8_35
    ▹ write_u8 i.character
    ▹ write_u32 i.u32_14
    ▹ write_u32 i.order
