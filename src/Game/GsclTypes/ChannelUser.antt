-- ===== src/Game/GsclTypes/ChannelUser.antt =====
-- src/game/gscl_types.hpp, channel_user.
use hovorun.Prelude.{ℕ, List}
use hovorun.Net.Message.Writer.{Writer, ◌▹◌, write_text, write_u16, write_u32, write_u8}

pub record ChannelUser : Type 0 where
  pub nickname : List ℕ
  pub u32_08 : ℕ
  pub u8_1a : ℕ
  pub u32_0c : ℕ
  pub u32_10 : ℕ
  pub host : ℕ
  pub u16_18 : ℕ
  pub str_1c : List ℕ

unfoldable pub write : ChannelUser → Writer → Writer
write i w =
    w
    ▹ write_text i.nickname
    ▹ write_u32 i.u32_08
    ▹ write_u8 i.u8_1a
    ▹ write_u32 i.u32_0c
    ▹ write_u32 i.u32_10
    ▹ write_u32 i.host
    ▹ write_u16 i.u16_18
    ▹ write_text i.str_1c
