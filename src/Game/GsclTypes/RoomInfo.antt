-- ===== src/Game/GsclTypes/RoomInfo.antt =====
-- src/game/gscl_types.hpp, room_info.
use hovorun.Prelude.{ℕ, List}
use hovorun.Net.Message.Writer.{Writer, ◌▹◌, write_text, write_u16, write_u8}
use hovorun.Net.Message.Reader.{Reads, pure, ◌>>=◌, read_many, read_string, read_u16, read_u8}
use hovorun.Game.Arrays.{for_each}

pub record RoomInfo : Type 0 where
  pub number : ℕ
  pub u16_06 : ℕ
  pub u16_08 : ℕ
  pub players : ℕ
  pub max_players : ℕ
  pub map : ℕ
  pub mode : ℕ
  pub max_lap : ℕ
  pub u8_0e : ℕ
  pub title : List ℕ
  pub password : List ℕ
  pub str_18 : List ℕ
  pub state : ℕ
  pub u8_26 : ℕ
  pub u8_27 : ℕ
  pub slots : List ℕ
  pub has_password : ℕ

unfoldable pub write : RoomInfo → Writer → Writer
unfolding for_each
write i w =
    w
    ▹ write_u16 i.number
    ▹ write_u16 i.u16_06
    ▹ write_u16 i.u16_08
    ▹ write_u8 i.players
    ▹ write_u8 i.max_players
    ▹ write_u8 i.map
    ▹ write_u8 i.mode
    ▹ write_u8 i.max_lap
    ▹ write_u8 i.u8_0e
    ▹ write_text i.title
    ▹ write_text i.password
    ▹ write_text i.str_18
    ▹ write_u8 i.state
    ▹ write_u8 i.u8_26
    ▹ write_u8 i.u8_27
    ▹ for_each write_u8 i.slots
    ▹ write_u8 i.has_password

unfoldable pub read : Reads RoomInfo
unfolding ◌>>=◌ pure read_many
read = do
  number ← read_u16
  u16_06 ← read_u16
  u16_08 ← read_u16
  players ← read_u8
  max_players ← read_u8
  map ← read_u8
  mode ← read_u8
  max_lap ← read_u8
  u8_0e ← read_u8
  title ← read_string
  password ← read_string
  str_18 ← read_string
  state ← read_u8
  u8_26 ← read_u8
  u8_27 ← read_u8
  slots ← read_many 8 read_u8
  has_password ← read_u8
  pure record {
    number = number;
    u16_06 = u16_06;
    u16_08 = u16_08;
    players = players;
    max_players = max_players;
    map = map;
    mode = mode;
    max_lap = max_lap;
    u8_0e = u8_0e;
    title = title;
    password = password;
    str_18 = str_18;
    state = state;
    u8_26 = u8_26;
    u8_27 = u8_27;
    slots = slots;
    has_password = has_password;
  }
