-- ===== src/Game/GsclTypes/RoundTrip.antt =====
-- src/game/gscl_types.hpp: what room_info and avatar_info write, they read back.
use hovorun.Prelude.{
  length, All, ℕ, zero, suc, ◌^◌, ◌<◌, ◌≡◌, sym, ◌∙◌, List, [], ◌∷◌, ◌++◌, map, append_assoc,
  append-nil, flatten, arith,
}
use hovorun.Net.Bytes.{le_bytes}
use hovorun.Net.Message.Writer.{write_word}
use hovorun.Net.Message.Reader.{read_word, read_many, ok}
use hovorun.Net.Message.Decodes.{
  Decodes, Decodes-pure, Decodes-bind, Decodes-last, Decodes-read_word,
}
use hovorun.Net.Message.RoundTrip.{IsText, wstring_bytes, Decodes-read_string}
use hovorun.Game.Arrays.{for_each}
use hovorun.Game.GsclTypes.RoomInfo
use hovorun.Game.GsclTypes.RoomInfo.{RoomInfo}
use hovorun.Game.GsclTypes.AvatarInfo
use hovorun.Game.GsclTypes.AvatarInfo.{AvatarInfo}
use hovorun.Net.Message.Text.{utf8_to_utf16}

-- An array of words: the bytes, one word after the other.
abbrev word_bytes : ℕ → List ℕ → List ℕ
word_bytes k items = flatten (map (le_bytes k) items)

for_each-write_word :
    (k : ℕ) (items w : List ℕ) → for_each (write_word k) items w ≡ w ++ word_bytes k items
unfolding for_each flatten
for_each-write_word k [] w = sym (append-nil w)
for_each-write_word k (item ∷ items) w =
    for_each-write_word k items (w ++ le_bytes k item)
    ∙ append_assoc w (le_bytes k item) (word_bytes k items)

Decodes-read_many :
    (n k : ℕ) (items : List ℕ)
    → length items ≡ n
    → All (λ v. v < 256 ^ k) items
    → Decodes (read_many n (read_word k)) (word_bytes k items) items
unfolding read_many flatten
Decodes-read_many zero k [] e h = Decodes-pure []
Decodes-read_many zero k (item ∷ items) e h = absurd (omega arith)
Decodes-read_many (suc n) k [] e h = absurd (omega arith)
Decodes-read_many (suc n) k (item ∷ items) e h =
    Decodes-bind _ (Decodes-read_word k item h.0)
      (Decodes-last (λ rest. item ∷ rest) (Decodes-read_many n k items (omega arith) h.1))

-- The fields of a room_info are in the range of their types.
pub record IsRoomInfo (i : RoomInfo) : Type 0 where
  pub number : i.number < 256 ^ 2
  pub u16_06 : i.u16_06 < 256 ^ 2
  pub u16_08 : i.u16_08 < 256 ^ 2
  pub players : i.players < 256 ^ 1
  pub max_players : i.max_players < 256 ^ 1
  pub map : i.map < 256 ^ 1
  pub mode : i.mode < 256 ^ 1
  pub max_lap : i.max_lap < 256 ^ 1
  pub u8_0e : i.u8_0e < 256 ^ 1
  pub title : IsText i.title
  pub password : IsText i.password
  pub str_18 : IsText i.str_18
  pub state : i.state < 256 ^ 1
  pub u8_26 : i.u8_26 < 256 ^ 1
  pub u8_27 : i.u8_27 < 256 ^ 1
  pub length_slots : length i.slots ≡ 8
  pub slots : All (λ v. v < 256 ^ 1) i.slots
  pub has_password : i.has_password < 256 ^ 1

abbrev room_info_bytes : RoomInfo → List ℕ
room_info_bytes i =
    le_bytes 2 i.number
    ++ (le_bytes 2 i.u16_06
        ++ (le_bytes 2 i.u16_08
            ++ (le_bytes 1 i.players
                ++ (le_bytes 1 i.max_players
                    ++ (le_bytes 1 i.map
                        ++ (le_bytes 1 i.mode
                            ++ (le_bytes 1 i.max_lap
                                ++ (le_bytes 1 i.u8_0e
                                    ++ (wstring_bytes (utf8_to_utf16 i.title)
                                        ++ (wstring_bytes (utf8_to_utf16 i.password)
                                            ++ (wstring_bytes (utf8_to_utf16 i.str_18)
                                                ++ (le_bytes 1 i.state
                                                    ++ (le_bytes 1 i.u8_26
                                                        ++ (le_bytes 1 i.u8_27
                                                            ++ (word_bytes 1 i.slots
                                                            ++ (le_bytes 1
                                                            i.has_password))))))))))))))))

pub Decodes-room_info : (i : RoomInfo) → IsRoomInfo i → Decodes RoomInfo.read (room_info_bytes i) i
unfolding RoomInfo.read
Decodes-room_info i h = Decodes-bind _ (Decodes-read_word 2 i.number h.number) (
    Decodes-bind _ (Decodes-read_word 2 i.u16_06 h.u16_06) (
      Decodes-bind _ (Decodes-read_word 2 i.u16_08 h.u16_08) (
        Decodes-bind _ (Decodes-read_word 1 i.players h.players) (
          Decodes-bind _ (Decodes-read_word 1 i.max_players h.max_players) (
            Decodes-bind _ (Decodes-read_word 1 i.map h.map) (
              Decodes-bind _ (Decodes-read_word 1 i.mode h.mode) (
                Decodes-bind _ (Decodes-read_word 1 i.max_lap h.max_lap) (
                  Decodes-bind _ (Decodes-read_word 1 i.u8_0e h.u8_0e) (
                    Decodes-bind _ (Decodes-read_string i.title h.title) (
                      Decodes-bind _ (Decodes-read_string i.password h.password) (
                        Decodes-bind _ (Decodes-read_string i.str_18 h.str_18) (
                          Decodes-bind _ (Decodes-read_word 1 i.state h.state) (
                            Decodes-bind _ (Decodes-read_word 1 i.u8_26 h.u8_26) (
                              Decodes-bind _ (Decodes-read_word 1 i.u8_27 h.u8_27) (
                                Decodes-bind _
                                  (Decodes-read_many 8 1 i.slots h.length_slots h.slots)
                                  (Decodes-last (λ x. record i { has_password = x })
                                    (Decodes-read_word 1 i.has_password
                                      h.has_password)))))))))))))))))

-- A room_info whose fields are in the range of their types and texts that a std::u16string can hold is read back
-- from what it writes, and the bytes that follow are left.
pub read-write_room_info :
    (i : RoomInfo) (rest : List ℕ)
    → IsRoomInfo i
    → RoomInfo.read (RoomInfo.write i [] ++ rest) ≡ ok (i, rest)
unfolding RoomInfo.write
read-write_room_info i rest h =
    simp (append_assoc, for_each-write_word)
      (simp append_assoc at ((Decodes-room_info i h).at rest))

-- The fields of a avatar_info are in the range of their types.
pub record IsAvatarInfo (i : AvatarInfo) : Type 0 where
  pub u32_04 : i.u32_04 < 256 ^ 4
  pub host : i.host < 256 ^ 4
  pub u32_0c : i.u32_0c < 256 ^ 4
  pub u32_10 : i.u32_10 < 256 ^ 4
  pub u32_14 : i.u32_14 < 256 ^ 4
  pub u32_18 : i.u32_18 < 256 ^ 4
  pub u8_1c : i.u8_1c < 256 ^ 1
  pub length_parts : length i.parts ≡ 14
  pub parts : All (λ v. v < 256 ^ 4) i.parts

abbrev avatar_info_bytes : AvatarInfo → List ℕ
avatar_info_bytes i =
    le_bytes 4 i.u32_04
    ++ (le_bytes 4 i.host
        ++ (le_bytes 4 i.u32_0c
            ++ (le_bytes 4 i.u32_10
                ++ (le_bytes 4 i.u32_14
                    ++ (le_bytes 4 i.u32_18 ++ (le_bytes 1 i.u8_1c ++ (word_bytes 4 i.parts)))))))

pub Decodes-avatar_info :
    (i : AvatarInfo) → IsAvatarInfo i → Decodes AvatarInfo.read (avatar_info_bytes i) i
unfolding AvatarInfo.read
Decodes-avatar_info i h = Decodes-bind _ (Decodes-read_word 4 i.u32_04 h.u32_04) (
    Decodes-bind _ (Decodes-read_word 4 i.host h.host) (
      Decodes-bind _ (Decodes-read_word 4 i.u32_0c h.u32_0c) (
        Decodes-bind _ (Decodes-read_word 4 i.u32_10 h.u32_10) (
          Decodes-bind _ (Decodes-read_word 4 i.u32_14 h.u32_14) (
            Decodes-bind _ (Decodes-read_word 4 i.u32_18 h.u32_18) (
              Decodes-bind _ (Decodes-read_word 1 i.u8_1c h.u8_1c) (
                Decodes-last (λ x. record i { parts = x })
                  (Decodes-read_many 14 4 i.parts h.length_parts h.parts))))))))

-- A avatar_info whose fields are in the range of their types is read back
-- from what it writes, and the bytes that follow are left.
pub read-write_avatar_info :
    (i : AvatarInfo) (rest : List ℕ)
    → IsAvatarInfo i
    → AvatarInfo.read (AvatarInfo.write i [] ++ rest) ≡ ok (i, rest)
unfolding AvatarInfo.write
read-write_avatar_info i rest h =
    simp (append_assoc, for_each-write_word)
      (simp append_assoc at ((Decodes-avatar_info i h).at rest))
