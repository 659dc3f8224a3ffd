-- ===== src/Game/GsclTypes/AvatarInfo.antt =====
-- src/game/gscl_types.hpp, avatar_info.
use hovorun.Prelude.{ℕ, List}
use hovorun.Net.Message.Writer.{Writer, ◌▹◌, write_u32, write_u8}
use hovorun.Net.Message.Reader.{Reads, pure, ◌>>=◌, read_many, read_u32, read_u8}
use hovorun.Game.Arrays.{for_each}

pub record AvatarInfo : Type 0 where
  pub u32_04 : ℕ
  pub host : ℕ
  pub u32_0c : ℕ
  pub u32_10 : ℕ
  pub u32_14 : ℕ
  pub u32_18 : ℕ
  pub u8_1c : ℕ
  pub parts : List ℕ

unfoldable pub write : AvatarInfo → Writer → Writer
unfolding for_each
write i w =
    w
    ▹ write_u32 i.u32_04
    ▹ write_u32 i.host
    ▹ write_u32 i.u32_0c
    ▹ write_u32 i.u32_10
    ▹ write_u32 i.u32_14
    ▹ write_u32 i.u32_18
    ▹ write_u8 i.u8_1c
    ▹ for_each write_u32 i.parts

unfoldable pub read : Reads AvatarInfo
unfolding ◌>>=◌ pure read_many
read = do
  u32_04 ← read_u32
  host ← read_u32
  u32_0c ← read_u32
  u32_10 ← read_u32
  u32_14 ← read_u32
  u32_18 ← read_u32
  u8_1c ← read_u8
  parts ← read_many 14 read_u32
  pure record {
    u32_04 = u32_04;
    host = host;
    u32_0c = u32_0c;
    u32_10 = u32_10;
    u32_14 = u32_14;
    u32_18 = u32_18;
    u8_1c = u8_1c;
    parts = parts;
  }
