-- ===== src/Proudnet/Peer/Dispatch.antt =====
-- src/proudnet/server.cpp, peer::process_payload and peer::on_encrypted. An encrypted message inside
-- an encrypted one is ignored, so that `process_inner` is process_payload with was_encrypted set.
pub mod Encrypted
pub mod Order
mod Tests
use hovorun.Prelude.{◌==◌, if◌then◌else◌, ℕ, ◌+◌, ◌%◌, Bool, true, false, ◌||◌, List, [], ◌∷◌}
use hovorun.Net.Message.Reader.{ok, err, Reads, pure, ◌>>=◌, read_u8, read_u16, read_scalar}
use hovorun.Crypto.Rc4.{rc4_apply}
use hovorun.Proudnet.MessageType
use hovorun.Proudnet.Peer.{Peer, State, is_connected, is_empty}
use hovorun.Proudnet.Peer.Handshake.{
  Connection, Outcome, Effect, core_message, on_public_key, on_connection_request, on_rmi,
}

abbrev pub awaits_public_key : State → Bool
awaits_public_key State.awaiting_public_key = true
awaits_public_key _ = false

abbrev pub awaits_connection_request : State → Bool
awaits_connection_request State.awaiting_connection_request = true
awaits_connection_request _ = false

-- The switch over the type; `encrypted` is what it does with an encrypted message.
unfoldable pub dispatch : (ℕ → List ℕ → Peer → Outcome) → Connection → ℕ → List ℕ → Peer → Outcome
dispatch encrypted c type r p =
    if type == MessageType.notify_cs_public_key
    then if awaits_public_key p.state then on_public_key c r p else (p, [])
    else if type == MessageType.notify_server_connection_request_data
    then if awaits_connection_request p.state then on_connection_request c r p else (p, [])
    else if type == MessageType.encrypted_reliable || type == MessageType.encrypted_unreliable
    then encrypted type r p
    else if type == MessageType.rmi
    then if is_connected p.state then on_rmi r p else (p, [])
    else if is_connected p.state
    then (p, core_message type r ∷ [])
    else (p, [])

unfoldable pub process : (ℕ → List ℕ → Peer → Outcome) → Connection → List ℕ → Peer → Outcome
process encrypted c payload p = elim (read_u8 payload) [
  | err e ↦ (p, [])
  | ok (type, r) ↦ dispatch encrypted c type r p
]

unfoldable pub process_inner : Connection → List ℕ → Peer → Outcome
process_inner = process (λ type r p. (p, []))

unfoldable pub read_encrypted : Reads ℕ
unfolding ◌>>=◌ pure
read_encrypted = do mode ← read_u8; length ← read_scalar; pure mode

-- From the serial of a reliable message on.
unfoldable pub on_serial : Connection → List ℕ → Peer → Outcome
on_serial c plain p = elim (read_u16 plain) [
  | err e ↦ (p, [])
  | ok (serial, inner) ↦
      if serial == p.recv_serial
      then process_inner c inner (record p { recv_serial = (p.recv_serial + 1) % 65536 })
      else (p, [])
]

unfoldable pub on_plain : Connection → Bool → List ℕ → Peer → Outcome
on_plain c reliable plain p = if reliable then on_serial c plain p else process_inner c plain p

unfoldable pub on_encrypted : Connection → Bool → List ℕ → Peer → Outcome
unfolding on_plain
on_encrypted c reliable r p = if is_empty p.session_key then (p, []) else elim (read_encrypted r) [
  | err e ↦ (p, [])
  | ok (mode, rest) ↦ on_plain c reliable (rc4_apply p.session_key rest) p
]

unfoldable pub process_payload : Connection → List ℕ → Peer → Outcome
process_payload c =
    process (λ type r p. on_encrypted c (type == MessageType.encrypted_reliable) r p) c
