-- ===== src/Proudnet/Loop/Kept.antt =====
-- src/proudnet/server.cpp: the loop of a connection keeps the books consistent, if the event sink does.
use hovorun.Prelude.{
  if◌then◌else◌, Bool-cases, Option-cases, ℕ, ◌≡◌, refl, ◌∙◌, inl, inr, Bool, true, false, some,
  List, [], ◌∷◌,
}
use hovorun.Containers.IdMap
use hovorun.Containers.IdMap.{IdMap}
use hovorun.Net.Framing.{Buffer}
use hovorun.Net.Framing.Drain.{read_loop}
use hovorun.Net.Framing.Drain.Kept.{read_loop-keeps}
use hovorun.Proudnet.Peer
use hovorun.Proudnet.Peer.{Peer, State, is_connected}
use hovorun.Proudnet.Peer.Handshake.{
  Effect, queues, closes, joins, core_message, core_rmi, event_rmi,
}
use hovorun.Proudnet.Peer.Dispatch.{process_payload}
use hovorun.Proudnet.Server.{Server, find, on_peer_closed}
use hovorun.Proudnet.Server.Books.{SameBooks, has-find}
use hovorun.Proudnet.Server.Consistent.{IsConsistent, is_peer, SameBooks-IsConsistent}
use hovorun.Proudnet.Server.CoreMessages.Kept.{
  handle_core_message-SameBooks, handle_core_rmi-SameBooks,
}
use hovorun.Proudnet.Server.Reach.{on_peer_closed-IsConsistent}
use hovorun.Proudnet.Loop.{
  Events, Environment, close, close_open, close_found, perform, perform_all, process_found, process,
  peer_sink,
}

-- What the server relies on in its event sink: a callback keeps the books consistent, and
-- on_client_leave leaves the peer that is closing to the server. The session and the messenger server
-- are such sinks; the game server creates groups, for which ids may run out.
pub record IsLawful {ℓ} {G : Type ℓ} (events : Events G) : Type ℓ where
  pub join :
      (id : ℕ) (w : Server × G) → IsConsistent w.0 → IsConsistent (events.on_client_join id w).0
  pub leave :
      (id : ℕ) (w : Server × G) → IsConsistent w.0 → IsConsistent (events.on_client_leave id w).0
  pub leave_peer :
      (id : ℕ) (w : Server × G)
      → is_peer id w.0 ≡ true
      → is_peer id (events.on_client_leave id w).0 ≡ true
  pub rmi :
      (id rmi_id : ℕ) (r : List ℕ) (w : Server × G)
      → IsConsistent w.0
      → IsConsistent (events.on_rmi id rmi_id r w).0

pub put_peer-SameBooks :
    (id : ℕ) (p q : Peer) (s : Server)
    → find id s ≡ some p
    → SameBooks s (record s { peers = IdMap.put id q s.peers })
put_peer-SameBooks id p q s e = record {
  peers = λ j. IdMap.has-put_self id j q s.peers (has-find id s p e);
  groups = refl;
  free = refl;
  next = refl;
}

module _ {ℓ} {G : Type ℓ} (env : Environment G) (lawful : IsLawful env.events) (id : ℕ) where
  left-IsConsistent :
      (b : Bool) (w : Server × G)
      → IsConsistent w.0
      → is_peer id w.0 ≡ true
      → IsConsistent (on_peer_closed id (if b then env.events.on_client_leave id w else w).0)
  left-IsConsistent true w c h =
      on_peer_closed-IsConsistent id _ (lawful.leave id w c) (lawful.leave_peer id w h)
  left-IsConsistent false w c h = on_peer_closed-IsConsistent id w.0 c h

  close_open-IsConsistent :
      (p : Peer) (w : Server × G)
      → find id w.0 ≡ some p
      → IsConsistent w.0
      → IsConsistent (close_open env id p w).0
  unfolding close_open
  close_open-IsConsistent p (s, g) e c =
      let b = put_peer-SameBooks id p (record p { state = State.closed }) s e in
      left-IsConsistent (is_connected p.state) _ (SameBooks-IsConsistent b c)
        (b.peers id ∙ has-find id s p e)

  close-IsConsistent : (w : Server × G) → IsConsistent w.0 → IsConsistent (close env id w).0
  unfolding close close_found
  close-IsConsistent w c = elim (Option-cases (find id w.0)) [
    | inl e ↦ rw (e, close, close_found) c
    | inr (p, e) ↦ elim (Bool-cases (Peer.is_closed p.state)) [
      | inl q ↦ rw (e, close, close_found) (rw (q) c)
      | inr q ↦ rw (e, close, close_found) (rw (q) (close_open-IsConsistent p w e c))
    ]
  ]

  perform-IsConsistent :
      (e : Effect) (w : Server × G) → IsConsistent w.0 → IsConsistent (perform env id e w).0
  unfolding perform
  perform-IsConsistent (queues frame) (s, g) c =
      SameBooks-IsConsistent (record { peers = λ j. refl; groups = refl; free = refl; next = refl })
        c
  perform-IsConsistent closes w c = close-IsConsistent w c
  perform-IsConsistent joins w c = lawful.join id w c
  perform-IsConsistent (core_message type r) (s, g) c =
      SameBooks-IsConsistent (handle_core_message-SameBooks (env.server_time s) id type r s) c
  perform-IsConsistent (core_rmi rmi_id r) (s, g) c =
      SameBooks-IsConsistent (handle_core_rmi-SameBooks id rmi_id s) c
  perform-IsConsistent (event_rmi rmi_id r) w c = lawful.rmi id rmi_id r w c

  perform_all-IsConsistent :
      (effects : List Effect) (w : Server × G)
      → IsConsistent w.0
      → IsConsistent (perform_all env id effects w).0
  unfolding perform_all
  perform_all-IsConsistent [] w c = c
  perform_all-IsConsistent (e ∷ effects) w c =
      perform_all-IsConsistent effects (perform env id e w) (perform-IsConsistent e w c)

  -- Whatever payload a peer sends, the books of the server stay consistent, if its event sink keeps
  -- them so and does not itself take a peer that is closing off the server.
  pub process-IsConsistent :
      (payload : List ℕ) (w : Server × G)
      → IsConsistent w.0
      → IsConsistent (process env id payload w).0
  unfolding process process_found
  process-IsConsistent payload (s, g) c = elim (Option-cases (find id s)) [
    | inl e ↦ rw (e, process, process_found) c
    | inr (p, e) ↦
        rw (e, process, process_found)
          (perform_all-IsConsistent (process_payload (env.connection id s) payload p).1
            (
              record s {
                peers = IdMap.put id (process_payload (env.connection id s) payload p).0 s.peers;
              },
              g,
            )
            (SameBooks-IsConsistent
              (put_peer-SameBooks id p (process_payload (env.connection id s) payload p).0 s e) c))
  ]

  -- The same for all that the connection reads, whatever the bytes and however they are cut.
  pub read_loop-IsConsistent :
      (chunks : List (List ℕ)) (w : Server × G) (buffer : Buffer)
      → IsConsistent w.0
      → IsConsistent (read_loop (peer_sink env id) (w, buffer) chunks).0.0
  read_loop-IsConsistent chunks w buffer c =
      read_loop-keeps (peer_sink env id) (λ w. IsConsistent w.0) process-IsConsistent
        close-IsConsistent chunks w buffer c
