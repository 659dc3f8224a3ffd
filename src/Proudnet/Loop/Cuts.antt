-- ===== src/Proudnet/Loop/Cuts.antt =====
-- src/proudnet/server.cpp: how the bytes of a connection are cut into reads plays no part.
use hovorun.Prelude.{
  Bool-cases, Option-cases, length, All, ℕ, ◌≤◌, ◌≡◌, refl, inl, inr, true, false, none, List, [],
  ◌∷◌, map, flatten, arith,
}
use hovorun.Containers.IdMap
use hovorun.Containers.IdMap.{IdMap}
use hovorun.Net.Framing.{max_frame_payload, make_frame}
use hovorun.Net.Framing.Drain.{read_loop}
use hovorun.Net.Framing.Drain.Chunks.{take_all, read_loop-flatten, read_loop-make_frame}
use hovorun.Proudnet.Peer
use hovorun.Proudnet.Peer.{Peer}
use hovorun.Proudnet.Server.{Server, find, on_peer_closed}
use hovorun.Proudnet.Server.Close.{on_peer_closed-Closed}
use hovorun.Proudnet.Loop.{
  Environment, peer_sink, is_closed, close, close_found, close_open, closed_found,
}

find-on_peer_closed : (id : ℕ) (s : Server) → find id (on_peer_closed id s) ≡ none
unfolding IdMap.has
find-on_peer_closed id s =
    let d = on_peer_closed-Closed id s in let peers = d.peers id in ground arith

module _ {ℓ} {G : Type ℓ} (env : Environment G) (id : ℕ) where
  closed_after : (s : Server) → closed_found env id (find id (on_peer_closed id s)) ≡ true
  closed_after s = rw (find-on_peer_closed id s) refl

  closed_after_open : (p : Peer) (w : Server × G) → is_closed env id (close_open env id p w) ≡ true
  unfolding close_open
  closed_after_open p (s, g) = closed_after _

  -- A peer that is closed is closed, whatever the event sink does.
  pub is_closed-close : (w : Server × G) → is_closed env id (close env id w) ≡ true
  unfolding close close_found close_open
  is_closed-close w = elim (Option-cases (find id w.0)) [
    | inl e ↦ rw (e, close, close_found) (rw (e) refl)
    | inr (p, e) ↦ elim (Bool-cases (Peer.is_closed p.state)) [
      | inl q ↦ rw (e, close, close_found) (rw (q) (rw (e) q))
      | inr q ↦ rw (e, close, close_found) (rw (q) (closed_after_open p w))
    ]
  ]

  -- However the bytes of a connection are cut into reads, the server and its event sink come to the
  -- state that they reach on reading them all at once.
  pub peer_sink-flatten :
      (w : Server × G) (chunks : List (List ℕ))
      → is_closed env id w ≡ false
      → (read_loop (peer_sink env id) (w, []) chunks).0
        ≡ (read_loop (peer_sink env id) (w, []) (flatten chunks ∷ [])).0
  peer_sink-flatten w chunks live =
      read_loop-flatten (peer_sink env id) is_closed-close w chunks live

  -- The frames of payloads within the limit, however they are cut into reads, hand the peer those
  -- payloads in order, up to the first that closes it.
  pub peer_sink-make_frame :
      (w : Server × G) (ps chunks : List (List ℕ))
      → is_closed env id w ≡ false
      → All (λ p. length p ≤ max_frame_payload) ps
      → flatten chunks ≡ flatten (map make_frame ps)
      → (read_loop (peer_sink env id) (w, []) chunks).0 ≡ take_all (peer_sink env id) w ps
  peer_sink-make_frame w ps chunks live fits e =
      read_loop-make_frame (peer_sink env id) is_closed-close w ps chunks live fits e
