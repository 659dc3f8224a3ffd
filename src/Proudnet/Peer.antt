-- ===== src/Proudnet/Peer.antt =====
-- src/proudnet/server.hpp and server.cpp, the state of a connection and peer::send. What write_next
-- puts on the socket is the frames of the write queue in order, so a send returns the frame it queues.
pub mod Dispatch
pub mod Handshake
use hovorun.Prelude.{
  if◌then◌else◌, ℕ, ◌+◌, ◌%◌, Bool, true, false, not, ◌&&◌, Option, none, some, List, [],
}
use hovorun.Net.Message.Writer.{◌▹◌, write_bytes, write_u8, write_u16, write_scalar, ssize}
use hovorun.Net.Framing.{make_frame}
use hovorun.Crypto.Rc4.{rc4_apply}
use hovorun.Proudnet.MessageType

pub data State : Type 0 where
  awaiting_public_key awaiting_connection_request connected closed : State

pub record Peer : Type 0 where
  pub state : State
  pub session_key : List ℕ
  pub recv_serial : ℕ
  pub send_serial : ℕ

abbrev pub is_connected : State → Bool
is_connected connected = true
is_connected _ = false

abbrev pub is_closed : State → Bool
is_closed closed = true
is_closed _ = false

abbrev pub is_empty {ℓ} : {A : Type ℓ} → List A → Bool
is_empty [] = true
is_empty _ = false

-- The peer as accept makes it.
abbrev pub new_peer : Peer
new_peer = record {
  state = awaiting_public_key;
  session_key = [];
  recv_serial = 0;
  send_serial = 0;
}

-- Encrypted_Reliable around a payload.
unfoldable pub encrypted_reliable : List ℕ → ℕ → List ℕ → List ℕ
encrypted_reliable key serial message =
    let plain = [] ▹ write_u16 serial ▹ write_bytes message in
    let cipher = rc4_apply key plain in
    []
    ▹ write_u8 MessageType.encrypted_reliable
    ▹ write_u8 1
    ▹ write_scalar (ssize cipher)
    ▹ write_bytes cipher

-- The peer after the call, and the frame that it queued, if any.
unfoldable pub send : List ℕ → Bool → Peer → Peer × Option (List ℕ)
send message encrypt p =
    if is_closed p.state
    then (p, none)
    else if encrypt && not (is_empty p.session_key)
    then (
      record p { send_serial = (p.send_serial + 1) % 65536 },
      some (make_frame (encrypted_reliable p.session_key p.send_serial message)),
    )
    else (p, some (make_frame message))
