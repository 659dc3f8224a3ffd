-- ===== src/Game/GsclTypes/ChannelInfo.antt =====
-- src/game/gscl_types.hpp, channel_info.
use hovorun.Prelude.{ℕ}
use hovorun.Net.Message.Writer.{Writer, ◌▹◌, write_u32, write_u8}

pub record ChannelInfo : Type 0 where
  pub users : ℕ
  pub capacity : ℕ
  pub u32_0c : ℕ
  pub u32_10 : ℕ
  pub u32_14 : ℕ
  pub u8_18 : ℕ
  pub u8_19 : ℕ
  pub index : ℕ
  pub u8_1b : ℕ

unfoldable pub write : ChannelInfo → Writer → Writer
write i w =
    w
    ▹ write_u32 i.users
    ▹ write_u32 i.capacity
    ▹ write_u32 i.u32_0c
    ▹ write_u32 i.u32_10
    ▹ write_u32 i.u32_14
    ▹ write_u8 i.u8_18
    ▹ write_u8 i.u8_19
    ▹ write_u8 i.index
    ▹ write_u8 i.u8_1b
