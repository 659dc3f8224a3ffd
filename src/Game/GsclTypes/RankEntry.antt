-- ===== src/Game/GsclTypes/RankEntry.antt =====
-- src/game/gscl_types.hpp, rank_entry.
use hovorun.Prelude.{ℕ, List}
use hovorun.Net.Message.Writer.{Writer, ◌▹◌, write_text, write_u32}

pub record RankEntry : Type 0 where
  pub u32_04 : ℕ
  pub u32_08 : ℕ
  pub u32_0c : ℕ
  pub str_10 : List ℕ
  pub u32_14 : ℕ
  pub u32_18 : ℕ
  pub u32_1c : ℕ
  pub u32_20 : ℕ
  pub str_24 : List ℕ
  pub str_28 : List ℕ

unfoldable pub write : RankEntry → Writer → Writer
write i w =
    w
    ▹ write_u32 i.u32_04
    ▹ write_u32 i.u32_08
    ▹ write_u32 i.u32_0c
    ▹ write_text i.str_10
    ▹ write_u32 i.u32_14
    ▹ write_u32 i.u32_18
    ▹ write_u32 i.u32_1c
    ▹ write_u32 i.u32_20
    ▹ write_text i.str_24
    ▹ write_text i.str_28
