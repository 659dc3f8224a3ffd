-- ===== src/Game/GsclTypes/RankInfo.antt =====
-- src/game/gscl_types.hpp, rank_info.
use hovorun.Prelude.{ℕ, List}
use hovorun.Net.Message.Writer.{Writer, ◌▹◌, write_text, write_u16, write_u32}

pub record RankInfo : Type 0 where
  pub u16_04 : ℕ
  pub u16_06 : ℕ
  pub u16_08 : ℕ
  pub u32_0c : ℕ
  pub u32_10 : ℕ
  pub str_14 : List ℕ
  pub str_18 : List ℕ

unfoldable pub write : RankInfo → Writer → Writer
write i w =
    w
    ▹ write_u16 i.u16_04
    ▹ write_u16 i.u16_06
    ▹ write_u16 i.u16_08
    ▹ write_u32 i.u32_0c
    ▹ write_u32 i.u32_10
    ▹ write_text i.str_14
    ▹ write_text i.str_18
