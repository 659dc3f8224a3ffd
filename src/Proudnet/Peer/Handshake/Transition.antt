-- ===== src/Proudnet/Peer/Handshake/Transition.antt =====
-- src/proudnet/server.cpp: what the handlers of the handshake do to the state of a connection.
use mathlib.Core.Path.{subst}
use hovorun.Prelude.{
  leb, if◌then◌else◌, Bool-cases, if_elim, ℕ, ◌≡◌, refl, sym, ◌∙◌, inl, inr, Bool, true, false, not,
  ◌&&◌, Option, none, some, List, [], ◌∷◌, ◌++◌,
}
use hovorun.Crypto.Rsa.{Parsed, parse_publickeyblob, make_rc4_simpleblob, expected, unexpected}
use hovorun.Net.Message.Reader.{Result-cases, read_u16, read_byte_array}
use hovorun.Net.Framing.{make_frame}
use hovorun.Net.Message.Writer.{◌▹◌, write_u8}
use hovorun.Proudnet.MessageType
use hovorun.Proudnet.CoreRmi
use hovorun.Proudnet.Peer
use hovorun.Proudnet.Peer.{Peer, State, is_closed}
use hovorun.Proudnet.Peer.Handshake.{
  Connection, Effect, Outcome, then_send, then_do, set_state, session_key_message,
  connect_success_message, speed_hack_message, on_public_key, read_request, on_connection_request,
  on_rmi, queues, closes, joins, core_message, core_rmi, event_rmi, is_same, send_session_key,
  with_key, with_version,
}

-- Frames and closes only: nothing of it calls the server.
abbrev pub is_quiet : List Effect → Bool
is_quiet [] = true
is_quiet (queues frame ∷ effects) = is_quiet effects
is_quiet (closes ∷ effects) = is_quiet effects
is_quiet _ = false

-- What one payload may do to a peer.
pub data Transition (p : Peer) : Outcome → Type 0 where
  keeps :
      (p' : Peer) (effects : List Effect)
      → p'.state ≡ p.state
      → is_quiet effects ≡ true
      → Transition p (p', effects)
  gets_key :
      (p' : Peer) (effects : List Effect)
      → p.state ≡ State.awaiting_public_key
      → p'.state ≡ State.awaiting_connection_request
      → is_quiet effects ≡ true
      → Transition p (p', effects)
  connects :
      (p' : Peer) (effects : List Effect)
      → p.state ≡ State.awaiting_connection_request
      → p'.state ≡ State.connected
      → is_quiet effects ≡ true
      → Transition p (p', effects ++ joins ∷ [])
  calls :
      (p' : Peer) (e : Effect)
      → p.state ≡ State.connected
      → p'.state ≡ State.connected
      → Transition p (p', e ∷ [])

-- What a plain send adds.
sent_frames : List ℕ → Peer → List Effect
sent_frames message p = if is_closed p.state then [] else queues (make_frame message) ∷ []

then_send_plain :
    (message : List ℕ) (p : Peer) (effects : List Effect)
    → then_send message (p, effects) ≡ (p, effects ++ sent_frames message p)
unfolding then_send Peer.send sent_frames
then_send_plain message p effects = elim (Bool-cases (is_closed p.state)) [
  | inl e ↦ rw (e, then_send, Peer.send) refl
  | inr e ↦ rw (e, then_send, Peer.send) refl
]

is_quiet-sent :
    (effects : List Effect) (message : List ℕ) (p : Peer)
    → is_quiet effects ≡ true
    → is_quiet (effects ++ sent_frames message p) ≡ true
unfolding sent_frames
is_quiet-sent [] message p h =
    if_elim (λ x. is_quiet x ≡ true) (is_closed p.state) (λ e. refl) (λ e. refl)
is_quiet-sent (queues frame ∷ effects) message p h = is_quiet-sent effects message p h
is_quiet-sent (closes ∷ effects) message p h = is_quiet-sent effects message p h
is_quiet-sent (joins ∷ effects) message p h = cc
is_quiet-sent (core_message t r ∷ effects) message p h = cc
is_quiet-sent (core_rmi t r ∷ effects) message p h = cc
is_quiet-sent (event_rmi t r ∷ effects) message p h = cc

is_quiet-close :
    (effects : List Effect) → is_quiet effects ≡ true → is_quiet (effects ++ closes ∷ []) ≡ true
is_quiet-close [] h = refl
is_quiet-close (queues frame ∷ effects) h = is_quiet-close effects h
is_quiet-close (closes ∷ effects) h = is_quiet-close effects h
is_quiet-close (joins ∷ effects) h = cc
is_quiet-close (core_message t r ∷ effects) h = cc
is_quiet-close (core_rmi t r ∷ effects) h = cc
is_quiet-close (event_rmi t r ∷ effects) h = cc

send_session_key-Transition :
    (blob : Option (List ℕ)) (p q : Peer)
    → p.state ≡ State.awaiting_public_key
    → q.state ≡ State.awaiting_public_key
    → Transition p (send_session_key blob q)
unfolding send_session_key
send_session_key-Transition none p q h g = keeps q [] (g ∙ sym h) refl
send_session_key-Transition (some blob) p q h g =
    subst (λ o. Transition p (set_state State.awaiting_connection_request o))
      (sym (then_send_plain (session_key_message blob) q []))
      (gets_key _ _ h refl (is_quiet-sent [] (session_key_message blob) q refl))

with_key-Transition :
    (c : Connection) (key : Parsed) (p : Peer)
    → p.state ≡ State.awaiting_public_key
    → Transition p (with_key c key p)
unfolding with_key
with_key-Transition c (unexpected e) p h = keeps p (closes ∷ []) refl refl
with_key-Transition c (expected key) p h =
    send_session_key-Transition (make_rc4_simpleblob key c.random_key c.nonzero) p
      (record p { session_key = c.random_key }) h h

pub on_public_key-Transition :
    (c : Connection) (r : List ℕ) (p : Peer)
    → p.state ≡ State.awaiting_public_key
    → Transition p (on_public_key c r p)
unfolding on_public_key
on_public_key-Transition c r p h = elim (Result-cases (read_byte_array r)) [
  | inl (e, q) ↦ rw (q, on_public_key) (keeps p [] refl refl)
  | inr ((blob, rest), q) ↦
      rw (q, on_public_key) (with_key-Transition c (parse_publickeyblob blob) p h)
]

with_version-Transition :
    (c : Connection) (version : List ℕ) (p : Peer)
    → p.state ≡ State.awaiting_connection_request
    → Transition p (with_version c version p)
unfolding with_version
with_version-Transition c version p h =
    let mismatch = [] ▹ write_u8 MessageType.notify_protocol_version_mismatch in
    let q = record p { state = State.connected } in
    let success = sent_frames (connect_success_message c) p in
    if_elim (Transition p) (not (is_same version c.protocol_version))
      (λ e.
        subst (λ o. Transition p (then_do closes o)) (sym (then_send_plain mismatch p []))
          (keeps p (sent_frames mismatch p ++ closes ∷ []) refl
            (is_quiet-close (sent_frames mismatch p) (is_quiet-sent [] mismatch p refl))))
      (λ e.
        subst
          (λ o.
            Transition p
              (then_do joins (then_send speed_hack_message (set_state State.connected o))))
          (sym (then_send_plain (connect_success_message c) p []))
          (subst (λ o. Transition p (then_do joins o))
            (sym (then_send_plain speed_hack_message q success))
            (connects q (success ++ sent_frames speed_hack_message q) h refl (
              is_quiet-sent success speed_hack_message q
                (is_quiet-sent [] (connect_success_message c) p refl)))))

pub on_connection_request-Transition :
    (c : Connection) (r : List ℕ) (p : Peer)
    → p.state ≡ State.awaiting_connection_request
    → Transition p (on_connection_request c r p)
unfolding on_connection_request
on_connection_request-Transition c r p h = elim (Result-cases (read_request r)) [
  | inl (e, q) ↦ rw (q, on_connection_request) (keeps p [] refl refl)
  | inr ((version, rest), q) ↦ rw (q, on_connection_request) (with_version-Transition c version p h)
]

pub on_rmi-Transition :
    (r : List ℕ) (p : Peer) → p.state ≡ State.connected → Transition p (on_rmi r p)
unfolding on_rmi
on_rmi-Transition r p h = elim (Result-cases (read_u16 r)) [
  | inl (e, q) ↦ rw (q, on_rmi) (keeps p [] refl refl)
  | inr ((rmi_id, rest), q) ↦
      rw (q, on_rmi)
        (if_elim (Transition p) (leb CoreRmi.c2s_first rmi_id && leb rmi_id CoreRmi.c2s_last)
          (λ e. calls p (core_rmi rmi_id rest) h h) (λ e. calls p (event_rmi rmi_id rest) h h))
]
