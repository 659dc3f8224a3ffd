-- ===== src/Proudnet/Loop.antt =====
-- src/proudnet/server.cpp: a connection from the bytes it reads to the server and the event_sink. The
-- state is that of the server with that of the sink, of any type. The peer under `id` is the one of
-- the loop: nothing accepts a new peer while its frames are handled.
pub mod Cuts
pub mod Kept
use hovorun.Prelude.{if◌then◌else◌, ℕ, Bool, true, Option, none, some, List, [], ◌∷◌, ◌++◌}
use hovorun.Containers.IdMap
use hovorun.Containers.IdMap.{IdMap}
use hovorun.Net.Framing.Drain.{Sink}
use hovorun.Proudnet.Peer
use hovorun.Proudnet.Peer.{Peer, State, is_connected}
use hovorun.Proudnet.Peer.Handshake.{
  Connection, Effect, queues, closes, joins, core_message, core_rmi, event_rmi,
}
use hovorun.Proudnet.Peer.Dispatch.{process_payload}
use hovorun.Proudnet.Server.{Server, find, on_peer_closed}
use hovorun.Proudnet.Server.CoreMessages.{handle_core_message, handle_core_rmi}

-- event_sink, with the id of the peer first.
pub record Events {ℓ} (G : Type ℓ) : Type ℓ where
  pub on_client_join : ℕ → Server × G → Server × G
  pub on_client_leave : ℕ → Server × G → Server × G
  pub on_rmi : ℕ → ℕ → List ℕ → Server × G → Server × G

-- What stands around the loop: the sink, the clock, and what the handshake takes.
pub record Environment {ℓ} (G : Type ℓ) : Type ℓ where
  pub events : Events G
  pub server_time : Server → ℕ
  pub connection : ℕ → Server → Connection

module _ {ℓ} {G : Type ℓ} (env : Environment G) (id : ℕ) where
  -- The rest of peer::close, for a peer that is not closed yet.
  close_open : Peer → Server × G → Server × G
  close_open p (s, g) =
      let marked : Server × G =
        (record s { peers = IdMap.put id (record p { state = State.closed }) s.peers }, g) in
      let left = if is_connected p.state then env.events.on_client_leave id marked else marked in
      (on_peer_closed id left.0, left.1)

  close_found : Option Peer → Server × G → Server × G
  unfolding close_open
  close_found none w = w
  close_found (some p) w = if Peer.is_closed p.state then w else close_open p w

  pub close : Server × G → Server × G
  unfolding close_found
  close w = close_found (find id w.0) w

  abbrev closed_found : Option Peer → Bool
  closed_found none = true
  closed_found (some p) = Peer.is_closed p.state

  -- The peer's m_state == state::closed; a peer that was closed is no peer of the server any more.
  abbrev pub is_closed : Server × G → Bool
  is_closed w = closed_found (find id w.0)

  perform : Effect → Server × G → Server × G
  unfolding close
  perform (queues frame) (s, g) = (record s { sent = s.sent ++ (id, frame) ∷ [] }, g)
  perform closes w = close w
  perform joins w = env.events.on_client_join id w
  perform (core_message type r) (s, g) = (handle_core_message (env.server_time s) id type r s, g)
  perform (core_rmi rmi_id r) (s, g) = (handle_core_rmi id rmi_id s, g)
  perform (event_rmi rmi_id r) w = env.events.on_rmi id rmi_id r w

  perform_all : List Effect → Server × G → Server × G
  unfolding perform
  perform_all [] w = w
  perform_all (e ∷ effects) w = perform_all effects (perform e w)

  process_found : List ℕ → Option Peer → Server × G → Server × G
  unfolding perform_all
  process_found payload none w = w
  process_found payload (some p) (s, g) =
      let (p', effects) = process_payload (env.connection id s) payload p in
      perform_all effects (record s { peers = IdMap.put id p' s.peers }, g)

  pub process : List ℕ → Server × G → Server × G
  unfolding process_found
  process payload w = process_found payload (find id w.0) w

  abbrev pub peer_sink : Sink (Server × G)
  peer_sink = record { process = process; close = close; is_closed = is_closed }
