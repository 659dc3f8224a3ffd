-- ===== src/Proudnet/Peer/Dispatch/Encrypted.antt =====
-- src/proudnet/server.cpp: what peer::send encrypts, peer::on_encrypted takes, once.
use hovorun.Prelude.{
  ◌==◌, ◌||◌, if◌then◌else◌, Bool, inl, inr, length, length-append, pos, ℕ, ◌+◌, ◌%◌, ◌^◌, ◌<◌, ◌≡◌,
  refl, ap, ◌∙◌, ◌≢◌, true, false, List, [], ◌∷◌, ◌++◌, append_assoc, arith,
}
use hovorun.Net.Bytes.{le_bytes, length-le_bytes}
use hovorun.Net.Message.Writer.{scalar_bytes, ssize}
use hovorun.Net.Message.Reader.{Result, Result-cases, pure, ◌>>=◌, read_u8, read_scalar, ok, err}
use hovorun.Crypto.Rc4.{rc4_apply}
use hovorun.Proudnet.MessageType
use hovorun.Proudnet.Peer.{Peer, is_empty, encrypted_reliable}
use hovorun.Proudnet.Peer.Handshake.{Connection, Outcome}
use hovorun.Proudnet.Peer.Dispatch.{
  dispatch, process, process_inner, read_encrypted, on_serial, on_plain, on_encrypted,
  process_payload,
}
use hovorun.Net.Message.RoundTrip.{Decodes-read_scalar}
use hovorun.Net.Message.Decodes.{Decodes-bind, Decodes-last, Decodes-read_word}
use hovorun.Crypto.Rc4.Involution.{rc4_apply-rc4_apply, length-rc4_apply}

-- The message inside, and the peer that expects the next serial.
abbrev pub advanced : Peer → Peer
advanced p = record p { recv_serial = (p.recv_serial + 1) % 65536 }

abbrev sealed : List ℕ → ℕ → List ℕ → List ℕ
sealed key serial message = rc4_apply key (le_bytes 2 serial ++ message)

encrypted_reliable_lem :
    (key : List ℕ) (serial : ℕ) (message : List ℕ)
    → encrypted_reliable key serial message
      ≡ le_bytes 1 MessageType.encrypted_reliable
        ++ (le_bytes 1 1
            ++ (scalar_bytes (ssize (sealed key serial message)) ++ sealed key serial message))
unfolding encrypted_reliable
encrypted_reliable_lem key serial message = simp append_assoc

read_encrypted-scalar :
    (n : ℕ) (rest : List ℕ)
    → n < 2 ^ 63
    → read_encrypted (le_bytes 1 1 ++ (scalar_bytes (pos n) ++ rest)) ≡ ok (1, rest)
unfolding read_encrypted
read_encrypted-scalar n rest h = rw (append_assoc (le_bytes 1 1) (scalar_bytes (pos n)) rest) at (
    (Decodes-bind (λ mode. read_scalar >>= λ length. pure mode)
        (Decodes-read_word 1 1 (omega arith))
        (Decodes-last (λ length. 1) (Decodes-read_scalar (pos n) h))).at
      rest)

same_number : (n : ℕ) → (n == n) ≡ true
same_number n = ground arith

process-type :
    (encrypted : ℕ → List ℕ → Peer → Outcome) (c : Connection) (type : ℕ) (r : List ℕ) (p : Peer)
    → type < 256
    → process encrypted c (le_bytes 1 type ++ r) p ≡ dispatch encrypted c type r p
unfolding process
process-type encrypted c type r p h = rw ((Decodes-read_word 1 type h).at r, process) refl

is_empty-false : (key : List ℕ) → key ≢ [] → is_empty key ≡ false
is_empty-false [] h = absurd (h refl)
is_empty-false (x ∷ key) h = refl

length-sealed :
    (key : List ℕ) (serial : ℕ) (message : List ℕ)
    → length (sealed key serial message) ≡ 2 + length message
length-sealed key serial message =
    length-rc4_apply key (le_bytes 2 serial ++ message)
    ∙ length-append (le_bytes 2 serial) message
    ∙ ap (λ n. n + length message) (length-le_bytes 2 serial)

on_encrypted-sealed :
    (c : Connection) (serial : ℕ) (message : List ℕ) (p : Peer)
    → p.session_key ≢ []
    → length message + 2 < 2 ^ 63
    → on_encrypted c true
        (le_bytes 1 1
          ++ (scalar_bytes (ssize (sealed p.session_key serial message))
              ++ sealed p.session_key serial message))
        p
      ≡ on_serial c (le_bytes 2 serial ++ message) p
unfolding on_encrypted on_plain
on_encrypted-sealed c serial message p h l =
    rw
      (
        is_empty-false p.session_key h,
        read_encrypted-scalar (length (sealed p.session_key serial message))
            (sealed p.session_key serial message)
            (omega (arith, length-sealed p.session_key serial message)),
        rc4_apply-rc4_apply p.session_key (le_bytes 2 serial ++ message),
      )
      refl

process_payload-sealed :
    (c : Connection) (serial : ℕ) (message : List ℕ) (p : Peer)
    → p.session_key ≢ []
    → length message + 2 < 2 ^ 63
    → process_payload c (encrypted_reliable p.session_key serial message) p
      ≡ on_serial c (le_bytes 2 serial ++ message) p
unfolding process_payload dispatch
process_payload-sealed c serial message p h l =
    ap (λ m. process_payload c m p) (encrypted_reliable_lem p.session_key serial message)
    ∙ process-type (λ type r p'. on_encrypted c (type == MessageType.encrypted_reliable) r p') c
        MessageType.encrypted_reliable _ p (omega arith)
    ∙ on_encrypted-sealed c serial message p h l

-- The message is itself of an encrypted type.
abbrev is_sealed : Result (ℕ × List ℕ) → Bool
is_sealed (err e) = false
is_sealed (ok (type, r)) =
    type == MessageType.encrypted_reliable || type == MessageType.encrypted_unreliable

abbrev pub has_sealed_type : List ℕ → Bool
has_sealed_type message = is_sealed (read_u8 message)

dispatch-sealed :
    (c : Connection) (type : ℕ) (r : List ℕ) (p : Peer)
    → dispatch (λ type r p. (p, [])) c type r p ≡ (
        if type == MessageType.encrypted_reliable || type == MessageType.encrypted_unreliable
        then (p, [])
        else dispatch
            (λ type r p'. on_encrypted c (type == MessageType.encrypted_reliable) r p')
            c
            type
            r
            p)
unfolding dispatch
dispatch-sealed c type r p = ground arith

-- Inside an encrypted message, one of an encrypted type is ignored, and any other is as in the clear.
process_inner_lem :
    (c : Connection) (message : List ℕ) (p : Peer)
    → process_inner c message p
      ≡ (if has_sealed_type message then (p, []) else process_payload c message p)
unfolding process_inner process_payload process
process_inner_lem c message p = elim (Result-cases (read_u8 message)) [
  | inl (e, q) ↦ rw (process_inner, process_payload, process, has_sealed_type, q) refl
  | inr ((type, r), q) ↦
      rw (process_inner, process_payload, process, has_sealed_type, q) (dispatch-sealed c type r p)
]

-- A message of less than 2^63 bytes, its serial counted in, that the other side encrypted under the
-- peer's session key and with the serial that the peer expects is handled like the message in the
-- clear, by the peer that expects the next serial; if the message inside is itself of an encrypted
-- type, it is ignored instead, and only the serial moves on.
pub process_payload-encrypted_reliable :
    (c : Connection) (message : List ℕ) (p : Peer)
    → p.session_key ≢ []
    → p.recv_serial < 65536
    → length message + 2 < 2 ^ 63
    → process_payload c (encrypted_reliable p.session_key p.recv_serial message) p ≡ (
        if has_sealed_type message
        then (advanced p, [])
        else process_payload c message (advanced p))
unfolding on_serial
process_payload-encrypted_reliable c message p h s l =
    process_payload-sealed c p.recv_serial message p h l
    ∙ rw ((Decodes-read_word 2 p.recv_serial s).at message, same_number p.recv_serial, on_serial)
        (process_inner_lem c message (advanced p))

-- A message encrypted under the peer's key with another serial than it expects, such as one that is
-- sent again, is dropped, and the peer stays as it was.
pub process_payload-other_serial :
    (c : Connection) (serial : ℕ) (message : List ℕ) (p : Peer)
    → p.session_key ≢ []
    → serial < 65536
    → serial ≢ p.recv_serial
    → length message + 2 < 2 ^ 63
    → process_payload c (encrypted_reliable p.session_key serial message) p ≡ (p, [])
unfolding on_serial
process_payload-other_serial c serial message p h s d l =
    let other : (serial == p.recv_serial) ≡ false = ground arith in
    process_payload-sealed c serial message p h l
    ∙ rw ((Decodes-read_word 2 serial s).at message, other, on_serial) refl
