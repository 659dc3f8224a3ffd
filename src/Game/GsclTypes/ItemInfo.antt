-- ===== src/Game/GsclTypes/ItemInfo.antt =====
-- src/game/gscl_types.hpp, item_info.
use hovorun.Prelude.{ℕ, List}
use hovorun.Net.Message.Writer.{Writer, ◌▹◌, write_f64, write_text, write_u16, write_u32, write_u8}

pub record ItemInfo : Type 0 where
  pub str_48 : List ℕ
  pub item_id : ℕ
  pub item_code : ℕ
  pub str_10 : List ℕ
  pub u16_14 : ℕ
  pub u16_16 : ℕ
  pub u16_18 : ℕ
  pub u32_1c : ℕ
  pub u32_20 : ℕ
  pub f64_28 : ℕ
  pub u32_30 : ℕ
  pub u32_34 : ℕ
  pub u16_1a : ℕ
  pub u8_38 : ℕ
  pub u8_39 : ℕ
  pub str_3c : List ℕ
  pub str_40 : List ℕ
  pub u32_44 : ℕ

unfoldable pub write : ItemInfo → Writer → Writer
write i w =
    w
    ▹ write_text i.str_48
    ▹ write_u32 i.item_id
    ▹ write_u32 i.item_code
    ▹ write_text i.str_10
    ▹ write_u16 i.u16_14
    ▹ write_u16 i.u16_16
    ▹ write_u16 i.u16_18
    ▹ write_u32 i.u32_1c
    ▹ write_u32 i.u32_20
    ▹ write_f64 i.f64_28
    ▹ write_u32 i.u32_30
    ▹ write_u32 i.u32_34
    ▹ write_u16 i.u16_1a
    ▹ write_u8 i.u8_38
    ▹ write_u8 i.u8_39
    ▹ write_text i.str_3c
    ▹ write_text i.str_40
    ▹ write_u32 i.u32_44
