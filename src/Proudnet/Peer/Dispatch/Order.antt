-- ===== src/Proudnet/Peer/Dispatch/Order.antt =====
-- src/proudnet/server.cpp, peer::process_payload: the order of a connection's states, and that only a
-- connected peer reaches the server.
use hovorun.Prelude.{◌==◌, if_elim, ℕ, ◌+◌, ◌%◌, ◌≡◌, refl, inl, inr, Bool, true, ◌||◌, List, []}
use hovorun.Net.Message.Reader.{read_u8, read_u16}
use hovorun.Net.Message.Decodes.{Result-cases}
use hovorun.Proudnet.MessageType
use hovorun.Proudnet.Peer.{Peer, State, is_connected, is_empty}
use hovorun.Proudnet.Peer.Handshake.{Connection, Outcome, core_message}
use hovorun.Proudnet.Peer.Handshake.Transition.{
  Transition, on_public_key-Transition, on_connection_request-Transition, on_rmi-Transition, keeps,
  gets_key, connects, calls,
}
use hovorun.Proudnet.Peer.Dispatch.{
  awaits_public_key, awaits_connection_request, dispatch, process, process_inner, read_encrypted,
  on_serial, on_plain, on_encrypted, process_payload,
}
use hovorun.Crypto.Rc4.{rc4_apply}

state-connected : (s : State) → is_connected s ≡ true → s ≡ State.connected
state-connected State.connected h = refl
state-connected State.awaiting_public_key h = cc
state-connected State.awaiting_connection_request h = cc
state-connected State.closed h = cc

state-awaits_key : (s : State) → awaits_public_key s ≡ true → s ≡ State.awaiting_public_key
state-awaits_key State.awaiting_public_key h = refl
state-awaits_key State.connected h = cc
state-awaits_key State.awaiting_connection_request h = cc
state-awaits_key State.closed h = cc

state-awaits_request :
    (s : State) → awaits_connection_request s ≡ true → s ≡ State.awaiting_connection_request
state-awaits_request State.awaiting_connection_request h = refl
state-awaits_request State.connected h = cc
state-awaits_request State.awaiting_public_key h = cc
state-awaits_request State.closed h = cc

ignored : (p : Peer) → Transition p (p, [])
ignored p = keeps p [] refl refl

dispatch-Transition :
    (encrypted : ℕ → List ℕ → Peer → Outcome) (c : Connection) (type : ℕ) (r : List ℕ) (p : Peer)
    → Transition p (encrypted type r p)
    → Transition p (dispatch encrypted c type r p)
unfolding dispatch
dispatch-Transition encrypted c type r p inside =
    let t = Transition p in
    if_elim t (type == MessageType.notify_cs_public_key)
      (λ _.
        if_elim t (awaits_public_key p.state)
          (λ e. on_public_key-Transition c r p (state-awaits_key _ e)) (λ _. ignored p))
      (λ _.
        if_elim t (type == MessageType.notify_server_connection_request_data)
          (λ _.
            if_elim t (awaits_connection_request p.state)
              (λ e. on_connection_request-Transition c r p (state-awaits_request _ e))
              (λ _. ignored p))
          (λ _.
            if_elim t
              (type == MessageType.encrypted_reliable || type == MessageType.encrypted_unreliable)
              (λ _. inside)
              (λ _.
                if_elim t (type == MessageType.rmi)
                  (λ _.
                    if_elim t (is_connected p.state)
                      (λ e. on_rmi-Transition r p (state-connected _ e)) (λ _. ignored p))
                  (λ _.
                    if_elim t (is_connected p.state)
                      (λ e.
                        calls p (core_message type r) (state-connected _ e) (state-connected _ e))
                      (λ _. ignored p)))))

process-Transition :
    (encrypted : ℕ → List ℕ → Peer → Outcome) (c : Connection) (payload : List ℕ) (p : Peer)
    → ((type : ℕ) (r : List ℕ) → Transition p (encrypted type r p))
    → Transition p (process encrypted c payload p)
unfolding process
process-Transition encrypted c payload p inside = elim (Result-cases (read_u8 payload)) [
  | inl (e, q) ↦ rw (q, process) (ignored p)
  | inr ((type, r), q) ↦ rw (q, process) (dispatch-Transition encrypted c type r p (inside type r))
]

process_inner-Transition :
    (c : Connection) (payload : List ℕ) (p : Peer) → Transition p (process_inner c payload p)
unfolding process_inner
process_inner-Transition c payload p =
    process-Transition (λ type r p. (p, [])) c payload p (λ type r. ignored p)

-- The serial plays no part in the states.
Transition-serial :
    (p : Peer) (n : ℕ) (o : Outcome) → Transition (record p { recv_serial = n }) o → Transition p o
Transition-serial p n _ (keeps p' effects e q) = keeps p' effects e q
Transition-serial p n _ (gets_key p' effects e f q) = gets_key p' effects e f q
Transition-serial p n _ (connects p' effects e f q) = connects p' effects e f q
Transition-serial p n _ (calls p' f e q) = calls p' f e q

on_serial-Transition :
    (c : Connection) (plain : List ℕ) (p : Peer) → Transition p (on_serial c plain p)
unfolding on_serial
on_serial-Transition c plain p = elim (Result-cases (read_u16 plain)) [
  | inl (e, q) ↦ rw (q, on_serial) (ignored p)
  | inr ((serial, inner), q) ↦
      rw (q, on_serial)
        (if_elim (Transition p) (serial == p.recv_serial)
          (λ _.
            Transition-serial p ((p.recv_serial + 1) % 65536) _
              (process_inner-Transition c inner _))
          (λ _. ignored p))
]

on_plain-Transition :
    (c : Connection) (reliable : Bool) (plain : List ℕ) (p : Peer)
    → Transition p (on_plain c reliable plain p)
unfolding on_plain
on_plain-Transition c reliable plain p =
    if_elim (Transition p) reliable (λ _. on_serial-Transition c plain p)
      (λ _. process_inner-Transition c plain p)

on_encrypted-Transition :
    (c : Connection) (reliable : Bool) (r : List ℕ) (p : Peer)
    → Transition p (on_encrypted c reliable r p)
unfolding on_encrypted
on_encrypted-Transition c reliable r p = elim (Result-cases (read_encrypted r)) [
  | inl (e, q) ↦
      rw (q, on_encrypted)
        (if_elim (Transition p) (is_empty p.session_key) (λ _. ignored p) (λ _. ignored p))
  | inr ((mode, rest), q) ↦
      rw (q, on_encrypted)
        (if_elim (Transition p) (is_empty p.session_key) (λ _. ignored p)
          (λ _. on_plain-Transition c reliable (rc4_apply p.session_key rest) p))
]

-- Whatever payload arrives, encrypted or not, a peer's state stays or goes one step on: from the public
-- key to the connection request, and from there to the connection, with on_peer_joined. Before the
-- peer is connected it reaches neither handle_core_message, nor handle_core_rmi, nor on_rmi; then it
-- makes at most one such call. Closing is an effect here, which the loop of the connection performs.
pub process_payload-Transition :
    (c : Connection) (payload : List ℕ) (p : Peer) → Transition p (process_payload c payload p)
unfolding process_payload
process_payload-Transition c payload p =
    process-Transition (λ type r p'. on_encrypted c (type == MessageType.encrypted_reliable) r p') c
      payload p (λ type r. on_encrypted-Transition c (type == MessageType.encrypted_reliable) r p)
