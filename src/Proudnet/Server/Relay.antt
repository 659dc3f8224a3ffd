-- ===== src/Proudnet/Server/Relay.antt =====
-- src/proudnet/server.cpp: the messages that a connected peer has for the server itself, the relay
-- among them. `from` is the id of the peer. The server's clock is a parameter, as the bit pattern of
-- its double. An exception leaves what was done so far, which is nothing in these handlers, since each
-- reads all of its message first.
pub mod Once
use hovorun.Prelude.{
  ◌==◌, if◌then◌else◌, length, ℤ, pos, negsuc, ℕ, false, none, some, List, [], ◌∷◌,
}
use hovorun.Containers.IdSet
use hovorun.Containers.IdSet.{IdSet}
use hovorun.Containers.IdMap
use hovorun.Containers.IdMap.{IdMap}
use hovorun.Net.Message.Writer.{Writer, ◌▹◌, write_bytes, write_u8, write_u32, write_scalar, ssize}
use hovorun.Net.Message.Reader.{
  Reads, pure, ◌>>=◌, take_bytes, read_u8, read_u32, read_scalar, read_length, read_many, ok, err,
}
use hovorun.Proudnet.MessageType
use hovorun.Proudnet.CoreRmi
use hovorun.Proudnet.Server.{Server, send}

-- for (int64_t i = 0; i < count; ++i)
abbrev read_counted {ℓ} : {A : Type ℓ} → ℤ → Reads A → Reads (List A)
read_counted (pos n) read_one = read_many n read_one
read_counted (negsuc n) read_one = read_many 0 read_one

-- r.take(r.read_length())
unfoldable pub take_rest : Reads (List ℕ)
unfolding ◌>>=◌
take_rest = do length ← read_length; take_bytes length

unfoldable pub read_dest : Reads (ℕ × ℕ)
unfolding ◌>>=◌ pure
read_dest = do dest ← read_u32; frame ← read_u32; pure (dest, frame)

unfoldable pub read_reliable : Reads (List (ℕ × ℕ) × List ℕ)
unfolding ◌>>=◌ pure read_dest take_rest
read_reliable = do
  count ← read_scalar
  dests ← read_counted count read_dest
  bytes ← take_rest
  pure (dests, bytes)

pub reliable_relay2_message : ℕ → ℕ → List ℕ → Writer
reliable_relay2_message from frame bytes =
    []
    ▹ write_u8 MessageType.reliable_relay2
    ▹ write_u32 from
    ▹ write_u32 frame
    ▹ write_scalar (ssize bytes)
    ▹ write_bytes bytes

unfoldable pub send_reliable : ℕ → List ℕ → List (ℕ × ℕ) → Server → Server
unfolding reliable_relay2_message
send_reliable from bytes [] s = s
send_reliable from bytes ((dest, frame) ∷ dests) s =
    send_reliable from bytes dests (send dest (reliable_relay2_message from frame bytes) false s)

unfoldable pub relay_reliable : ℕ → List ℕ → Server → Server
unfolding send_reliable read_reliable
relay_reliable from r s = elim (read_reliable r) [
  | err e ↦ s
  | ok ((dests, bytes), rest) ↦ send_reliable from bytes dests s
]

-- The ids that for_each_destination calls its function with, in order.
abbrev pub except : ℕ → IdSet → List ℕ
except sender [] = []
except sender (member ∷ members) =
    let rest = except sender members in if member == sender then rest else member ∷ rest

abbrev pub destinations : IdMap IdSet → ℕ → ℕ → List ℕ
destinations groups sender dest = elim (IdMap.find dest groups) [
  | some members ↦ except sender members
  | none ↦ dest ∷ []
]

unfoldable pub read_unreliable : Reads (List ℕ × List ℕ)
unfolding ◌>>=◌ pure take_rest
read_unreliable = do
  priority ← read_u8
  unique_id ← read_scalar
  count ← read_scalar
  dests ← read_counted count read_u32
  inner ← take_rest
  pure (dests, inner)

pub unreliable_relay2_message : ℕ → List ℕ → Writer
unreliable_relay2_message from inner =
    []
    ▹ write_u8 MessageType.unreliable_relay2
    ▹ write_u32 from
    ▹ write_scalar (ssize inner)
    ▹ write_bytes inner

-- if (sent.insert(id).second) send(id, w);  for the ids in order
unfoldable pub send_once : Writer → List ℕ → IdSet × Server → IdSet × Server
send_once w [] (sent, s) = (sent, s)
send_once w (id ∷ ids) (sent, s) =
    send_once w ids (IdSet.insert id sent, if IdSet.contains id sent then s else send id w false s)

-- The groups are those at the start: a send changes none.
unfoldable pub send_unreliable : IdMap IdSet → ℕ → Writer → List ℕ → IdSet × Server → IdSet × Server
unfolding send_once
send_unreliable groups from w [] st = st
send_unreliable groups from w (dest ∷ dests) st =
    send_unreliable groups from w dests (send_once w (destinations groups from dest) st)

unfoldable pub relay_unreliable : ℕ → List ℕ → Server → Server
unfolding send_unreliable read_unreliable unreliable_relay2_message
relay_unreliable from r s = elim (read_unreliable r) [
  | err e ↦ s
  | ok ((dests, inner), rest) ↦
      (send_unreliable s.groups from (unreliable_relay2_message from inner) dests ([], s)).1
]

unfoldable pub read_udp_frame : Reads (ℕ × (ℕ × List ℕ))
unfolding ◌>>=◌ pure take_rest
read_udp_frame = do
  dest ← read_u32
  frame ← read_u32
  bytes ← take_rest
  pure (dest, (frame, bytes))

pub reliable_udp_frame_relay2_message : ℕ → ℕ → List ℕ → Writer
reliable_udp_frame_relay2_message from frame bytes =
    []
    ▹ write_u8 MessageType.reliable_udp_frame_relay2
    ▹ write_u32 from
    ▹ write_u32 frame
    ▹ write_scalar (ssize bytes)
    ▹ write_bytes bytes

unfoldable pub relay_reliable_udp_frame : ℕ → List ℕ → Server → Server
unfolding read_udp_frame reliable_udp_frame_relay2_message
relay_reliable_udp_frame from r s = elim (read_udp_frame r) [
  | err e ↦ s
  | ok ((dest, (frame, bytes)), rest) ↦
      send dest (reliable_udp_frame_relay2_message from frame bytes) false s
]
