-- ===== src/Proudnet/Peer/Handshake.antt =====
-- src/proudnet/server.cpp: the messages that a peer handles, from its public key to the dispatch of
-- what a connected peer sends. A handler returns the peer after it and its effects in order: the
-- frames it queued, and the calls of the server, which the source makes last. An exception ends a
-- handler with what it has done so far, as read_loop catches it. The random numbers and
-- the remote address are parameters.
pub mod Transition
use hovorun.Prelude.{
  leb, ◌==◌, if◌then◌else◌, ℕ, Bool, true, false, not, ◌&&◌, Option, none, some, List, [], ◌∷◌,
  ◌++◌,
}
use hovorun.Net.Message.Writer.{
  ◌▹◌, write_bytes, write_u8, write_u16, write_u32, write_bool, write_byte_array, write_guid,
}
use hovorun.Net.Message.Reader.{
  Reads, pure, ◌>>=◌, read_u16, read_u32, read_byte_array, read_guid, ok, err,
}
use hovorun.Crypto.Rsa.{Parsed, parse_publickeyblob, make_rc4_simpleblob, expected, unexpected}
use hovorun.Proudnet.MessageType
use hovorun.Proudnet.CoreRmi
use hovorun.Proudnet.Types.{rmi_begin}
use hovorun.Proudnet.Peer
use hovorun.Proudnet.Peer.{Peer, State, is_connected, is_empty}

pub data Effect : Type 0 where
  -- a frame in the write queue
  queues : List ℕ → Effect
  -- peer::close
  closes : Effect
  -- server::on_peer_joined
  joins : Effect
  -- server::handle_core_message, with the type and what is left to read
  core_message : ℕ → List ℕ → Effect
  -- server::handle_core_rmi
  core_rmi : ℕ → List ℕ → Effect
  -- event_sink::on_rmi
  event_rmi : ℕ → List ℕ → Effect

abbrev pub Outcome : Type 0
Outcome = Peer × List Effect

abbrev queued : Option (List ℕ) → List Effect
queued none = []
queued (some frame) = queues frame ∷ []

-- send(message) after the effects of `o`
unfoldable pub then_send : List ℕ → Outcome → Outcome
unfolding Peer.send
then_send message (p, effects) =
    let (p', frame) = Peer.send message false p in (p', effects ++ queued frame)

abbrev pub then_do : Effect → Outcome → Outcome
then_do e (p, effects) = (p, effects ++ e ∷ [])

abbrev pub set_state : State → Outcome → Outcome
set_state state (p, effects) = (record p { state = state }, effects)

-- What a connection takes from outside of this file.
pub record Connection : Type 0 where
  pub id : ℕ
  pub protocol_version : List ℕ
  pub instance_guid : List ℕ
  pub address : List ℕ
  pub port : ℕ
  -- the next session key that the random numbers give
  pub random_key : List ℕ
  -- what the random numbers draw for the padding of its blob
  pub nonzero : ℕ → ℕ

pub session_key_message : List ℕ → List ℕ
session_key_message blob =
    [] ▹ write_u8 MessageType.notify_cs_encrypted_session_key ▹ write_byte_array blob

pub connect_success_message : Connection → List ℕ
connect_success_message c =
    []
    ▹ write_u8 MessageType.notify_server_connect_success
    ▹ write_u32 c.id
    ▹ write_guid c.instance_guid
    ▹ write_byte_array []
    ▹ write_bytes c.address
    ▹ write_u16 c.port

pub speed_hack_message : List ℕ
speed_hack_message = rmi_begin CoreRmi.notify_speed_hack_detector_enabled ▹ write_bool false

abbrev is_same : List ℕ → List ℕ → Bool
is_same [] [] = true
is_same (x ∷ xs) (y ∷ ys) = x == y && is_same xs ys
is_same _ _ = false

-- The session key goes out, or its blob could not be made, which throws.
send_session_key : Option (List ℕ) → Peer → Outcome
unfolding then_send session_key_message
send_session_key none p = (p, [])
send_session_key (some blob) p =
    set_state State.awaiting_connection_request (then_send (session_key_message blob) (p, []))

with_key : Connection → Parsed → Peer → Outcome
unfolding send_session_key
with_key c (unexpected e) p = (p, closes ∷ [])
with_key c (expected key) p =
    send_session_key (make_rc4_simpleblob key c.random_key c.nonzero)
      (record p { session_key = c.random_key })

unfoldable pub on_public_key : Connection → List ℕ → Peer → Outcome
unfolding with_key
on_public_key c r p = elim (read_byte_array r) [
  | err e ↦ (p, [])
  | ok (blob, rest) ↦ with_key c (parse_publickeyblob blob) p
]

-- The fields of a NotifyServerConnectionRequestData; only the version is used.
unfoldable pub read_request : Reads (List ℕ)
unfolding ◌>>=◌ pure
read_request = do
  user_data ← read_byte_array
  version ← read_guid
  internal_version ← read_u32
  pure version

with_version : Connection → List ℕ → Peer → Outcome
unfolding then_send connect_success_message speed_hack_message
with_version c version p =
    if not (is_same version c.protocol_version)
    then then_do closes
        (then_send ([] ▹ write_u8 MessageType.notify_protocol_version_mismatch) (p, []))
    else then_do joins (
        then_send speed_hack_message
          (set_state State.connected (then_send (connect_success_message c) (p, []))))

unfoldable pub on_connection_request : Connection → List ℕ → Peer → Outcome
unfolding with_version read_request
on_connection_request c r p = elim (read_request r) [
  | err e ↦ (p, [])
  | ok (version, rest) ↦ with_version c version p
]

unfoldable pub on_rmi : List ℕ → Peer → Outcome
on_rmi r p = elim (read_u16 r) [
  | err e ↦ (p, [])
  | ok (rmi_id, rest) ↦
      if leb CoreRmi.c2s_first rmi_id && leb rmi_id CoreRmi.c2s_last
      then (p, core_rmi rmi_id rest ∷ [])
      else (p, event_rmi rmi_id rest ∷ [])
]
