-- ===== src/Game/GsclTypes/RoomSlotUser.antt =====
-- src/game/gscl_types.hpp, room_slot_user.
use hovorun.Prelude.{ℕ, List}
use hovorun.Net.Message.Writer.{Writer, ◌▹◌, write_text, write_u16, write_u32, write_u8}

pub record RoomSlotUser : Type 0 where
  pub str_04 : List ℕ
  pub str_08 : List ℕ
  pub u32_0c : ℕ
  pub u32_10 : ℕ
  pub u16_14 : ℕ
  pub u16_16 : ℕ
  pub u8_18 : ℕ

unfoldable pub write : RoomSlotUser → Writer → Writer
write i w =
    w
    ▹ write_text i.str_04
    ▹ write_text i.str_08
    ▹ write_u32 i.u32_0c
    ▹ write_u32 i.u32_10
    ▹ write_u16 i.u16_14
    ▹ write_u16 i.u16_16
    ▹ write_u8 i.u8_18
