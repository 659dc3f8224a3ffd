-- ===== src/Game/GsclTypes/GiftInfo.antt =====
-- src/game/gscl_types.hpp, gift_info.
use hovorun.Prelude.{ℕ, List}
use hovorun.Net.Message.Writer.{Writer, ◌▹◌, write_text, write_u16, write_u32}

pub record GiftInfo : Type 0 where
  pub u32_04 : ℕ
  pub u32_08 : ℕ
  pub u32_0c : ℕ
  pub u32_10 : ℕ
  pub u16_14 : ℕ
  pub u32_18 : ℕ
  pub u32_1c : ℕ
  pub str_20 : List ℕ
  pub str_24 : List ℕ
  pub str_28 : List ℕ
  pub str_2c : List ℕ
  pub str_30 : List ℕ

unfoldable pub write : GiftInfo → Writer → Writer
write i w =
    w
    ▹ write_u32 i.u32_04
    ▹ write_u32 i.u32_08
    ▹ write_u32 i.u32_0c
    ▹ write_u32 i.u32_10
    ▹ write_u16 i.u16_14
    ▹ write_u32 i.u32_18
    ▹ write_u32 i.u32_1c
    ▹ write_text i.str_20
    ▹ write_text i.str_24
    ▹ write_text i.str_28
    ▹ write_text i.str_2c
    ▹ write_text i.str_30
