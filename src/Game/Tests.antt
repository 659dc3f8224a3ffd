-- ===== src/Game/Tests.antt =====
-- src/game/gscl_types.hpp: the theorems on structs at small inputs.
use hovorun.Prelude.{
  replicate, All, ℕ, zero, suc, ◌^◌, ◌<◌, ◌≡◌, refl, inl, List, [], ◌∷◌, ◌++◌, arith,
}
use hovorun.Net.Message.Reader.{ok}
use hovorun.Net.Message.Text.{
  lead_byte, continuation, utf16_units, utf8_loop, utf8_to_utf16, utf8_bytes,
}
use hovorun.Net.Message.Text.Unicode.{encode_utf8}
use hovorun.Net.Message.RoundTrip.{IsText}
use hovorun.Game.GsclTypes.RoomInfo
use hovorun.Game.GsclTypes.RoomInfo.{RoomInfo}
use hovorun.Game.GsclTypes.AvatarInfo
use hovorun.Game.GsclTypes.AvatarInfo.{AvatarInfo}
use hovorun.Game.GsclTypes.RoundTrip.{
  IsRoomInfo, IsAvatarInfo, read-write_room_info, read-write_avatar_info,
}

abbrev some_title : List ℕ
some_title = encode_utf8 (0xD55C ∷ [])

some_title_units : utf8_to_utf16 some_title ≡ 0xD55C ∷ []
unfolding utf8_to_utf16 utf8_loop continuation utf16_units utf8_bytes lead_byte
some_title_units = refl

some_title-IsText : IsText some_title
some_title-IsText = record {
  points = 0xD55C ∷ [];
  scalar = (inl (omega arith), tt);
  encoded = refl;
  fits = rw some_title_units (omega arith);
}

blank_units : utf8_to_utf16 [] ≡ []
unfolding utf8_to_utf16 utf8_loop
blank_units = refl

blank-IsText : IsText []
blank-IsText = record {
  points = [];
  scalar = tt;
  encoded = refl;
  fits = rw blank_units (omega arith);
}

abbrev some_room : RoomInfo
some_room = record {
  number = 300;
  u16_06 = 1;
  u16_08 = 2;
  players = 3;
  max_players = 8;
  map = 5;
  mode = 6;
  max_lap = 7;
  u8_0e = 8;
  title = some_title;
  password = [];
  str_18 = [];
  state = 1;
  u8_26 = 2;
  u8_27 = 3;
  slots = 1 ∷ 2 ∷ 3 ∷ 4 ∷ 5 ∷ 6 ∷ 7 ∷ 255 ∷ [];
  has_password = 1;
}

some_room-IsRoomInfo : IsRoomInfo some_room
some_room-IsRoomInfo = record {
  number = omega arith;
  u16_06 = omega arith;
  u16_08 = omega arith;
  players = omega arith;
  max_players = omega arith;
  map = omega arith;
  mode = omega arith;
  max_lap = omega arith;
  u8_0e = omega arith;
  title = some_title-IsText;
  password = blank-IsText;
  str_18 = blank-IsText;
  state = omega arith;
  u8_26 = omega arith;
  u8_27 = omega arith;
  length_slots = refl;
  slots = (
    omega arith,
    (
      omega arith,
      (omega arith, (omega arith, (omega arith, (omega arith, (omega arith, (omega arith, tt)))))),
    ),
  );
  has_password = omega arith;
}

read-write_room_info_example :
    RoomInfo.read (RoomInfo.write some_room [] ++ 9 ∷ []) ≡ ok (some_room, 9 ∷ [])
read-write_room_info_example = read-write_room_info some_room (9 ∷ []) some_room-IsRoomInfo

abbrev some_avatar : AvatarInfo
some_avatar = record {
  u32_04 = 70000;
  host = 3;
  u32_0c = 0;
  u32_10 = 0;
  u32_14 = 0;
  u32_18 = 0;
  u8_1c = 255;
  parts = replicate 14 100000;
}

some_parts : (n : ℕ) → All (λ v. v < 256 ^ 4) (replicate n 100000)
some_parts zero = tt
some_parts (suc n) = (omega arith, some_parts n)

some_avatar-IsAvatarInfo : IsAvatarInfo some_avatar
some_avatar-IsAvatarInfo = record {
  u32_04 = omega arith;
  host = omega arith;
  u32_0c = omega arith;
  u32_10 = omega arith;
  u32_14 = omega arith;
  u32_18 = omega arith;
  u8_1c = omega arith;
  length_parts = refl;
  parts = some_parts 14;
}

read-write_avatar_info_example :
    AvatarInfo.read (AvatarInfo.write some_avatar [] ++ 9 ∷ []) ≡ ok (some_avatar, 9 ∷ [])
read-write_avatar_info_example =
    read-write_avatar_info some_avatar (9 ∷ []) some_avatar-IsAvatarInfo
