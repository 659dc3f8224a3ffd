-- ===== src/Proudnet/Types.antt =====
-- src/proudnet/types.hpp and rmi.hpp: GUIDs as their 16 bytes, the protocol versions, the start of an
-- RMI payload.
use hovorun.Prelude.{take, drop, ℕ, ◌+◌, ◌%◌, ◌^◌, List, [], ◌∷◌, ◌++◌}
use hovorun.Net.Bytes.{le_bytes, of_le}
use hovorun.Net.Message.Writer.{Writer, ◌▹◌, write_u8, write_u16}
use hovorun.Proudnet.MessageType

abbrev pub host_id_none : ℕ
host_id_none = 0

abbrev pub host_id_server : ℕ
host_id_server = 1

abbrev pub host_id_first_client : ℕ
host_id_first_client = 3

abbrev pub make_guid : ℕ → ℕ → ℕ → List ℕ → List ℕ
make_guid d1 d2 d3 d4 = le_bytes 4 d1 ++ (le_bytes 2 d2 ++ (le_bytes 2 d3 ++ d4))

abbrev pub protocol_version_base : List ℕ
protocol_version_base =
    make_guid 0x683ADDC6 0x6740 0x485B (0xAF ∷ 0x8D ∷ 0x88 ∷ 0x18 ∷ 0xC1 ∷ 0xCC ∷ 0x04 ∷ 0x3C ∷ [])

-- Data1 plus `add`, with the wrap-around of uint32_t.
pub derive_protocol_version : ℕ → List ℕ
unfolding le_bytes of_le
derive_protocol_version add =
    le_bytes 4 ((of_le (take 4 protocol_version_base) + add) % 2 ^ 32)
    ++ drop 4 protocol_version_base

abbrev pub game_protocol_version : List ℕ
game_protocol_version = derive_protocol_version 1

abbrev pub messenger_protocol_version : List ℕ
messenger_protocol_version = derive_protocol_version 4

abbrev pub session_protocol_version : List ℕ
session_protocol_version = derive_protocol_version 5

unfoldable pub rmi_begin : ℕ → Writer
unfolding le_bytes
rmi_begin rmi_id = [] ▹ write_u8 MessageType.rmi ▹ write_u16 rmi_id
