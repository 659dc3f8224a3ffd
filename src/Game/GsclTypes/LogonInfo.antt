-- ===== src/Game/GsclTypes/LogonInfo.antt =====
-- src/game/gscl_types.hpp, logon_info.
use hovorun.Prelude.{ℕ, List}
use hovorun.Net.Message.Writer.{Writer, ◌▹◌, write_text, write_u16, write_u32, write_u8}

pub record LogonInfo : Type 0 where
  pub user_index : ℕ
  pub nickname : List ℕ
  pub unk_0c : ℕ
  pub exp : ℕ
  pub money : ℕ
  pub unk_18 : ℕ
  pub host : ℕ
  pub unk_50 : ℕ
  pub unk_1c : ℕ
  pub unk_20 : ℕ
  pub unk_24 : ℕ
  pub unk_28 : ℕ
  pub unk_2c : ℕ
  pub unk_30 : ℕ
  pub unk_34 : ℕ
  pub unk_38 : ℕ
  pub unk_3c : ℕ
  pub str_40 : List ℕ
  pub str_44 : List ℕ
  pub need_select_character : ℕ

unfoldable pub write : LogonInfo → Writer → Writer
write i w =
    w
    ▹ write_u32 i.user_index
    ▹ write_text i.nickname
    ▹ write_u16 i.unk_0c
    ▹ write_u32 i.exp
    ▹ write_u32 i.money
    ▹ write_u32 i.unk_18
    ▹ write_u32 i.host
    ▹ write_u8 i.unk_50
    ▹ write_u32 i.unk_1c
    ▹ write_u32 i.unk_20
    ▹ write_u32 i.unk_24
    ▹ write_u32 i.unk_28
    ▹ write_u32 i.unk_2c
    ▹ write_u32 i.unk_30
    ▹ write_u32 i.unk_34
    ▹ write_u32 i.unk_38
    ▹ write_u16 i.unk_3c
    ▹ write_text i.str_40
    ▹ write_text i.str_44
    ▹ write_u8 i.need_select_character
