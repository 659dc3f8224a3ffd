-- ===== src/Game/GsclTypes/StartGameInfo.antt =====
-- src/game/gscl_types.hpp, start_game_info.
use hovorun.Prelude.{ℕ, List}
use hovorun.Net.Message.Writer.{Writer, ◌▹◌, write_text, write_u32}

pub record StartGameInfo : Type 0 where
  pub u32_04 : ℕ
  pub str_08 : List ℕ
  pub u32_0c : ℕ
  pub u32_10 : ℕ
  pub u32_14 : ℕ
  pub u32_18 : ℕ
  pub str_1c : List ℕ

unfoldable pub write : StartGameInfo → Writer → Writer
write i w =
    w
    ▹ write_u32 i.u32_04
    ▹ write_text i.str_08
    ▹ write_u32 i.u32_0c
    ▹ write_u32 i.u32_10
    ▹ write_u32 i.u32_14
    ▹ write_u32 i.u32_18
    ▹ write_text i.str_1c
