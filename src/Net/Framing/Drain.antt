-- ===== src/Net/Framing/Drain.antt =====
-- src/proudnet/server.cpp, peer::read_loop: the frames of the chunks that arrive, in order, until the
-- peer is closed. What the peer does with a payload is a parameter; src/proudnet's peer fills it.
mod Steps
mod Resume
pub mod Chunks
pub mod Kept
use hovorun.Prelude.{length, ℕ, zero, suc, Bool, true, false, List, [], ◌∷◌}
use hovorun.Net.Framing.{
  Frame, Buffer, feed, next, incomplete, bad_magic, bad_length, payload, unexpected, thrown,
}

-- The peer: how it takes a payload, how it is closed, and whether it is.
pub record Sink {ℓ} (S : Type ℓ) : Type ℓ where
  pub process : List ℕ → S → S
  pub close : S → S
  pub is_closed : S → Bool

module _ {ℓ} {S : Type ℓ} (k : Sink S) where
  open k use {process, close, is_closed}

  -- What the loop does with the answer of `next`; `continue` goes round again. `thrown` does not occur.
  after_next : (S → Buffer → S × Buffer) → S → Frame × Buffer → S × Buffer
  after_next continue s (payload p, rest) = elim (is_closed (process p s)) [
    | true ↦ (process p s, rest)
    | false ↦ continue (process p s) rest
  ]
  after_next continue s (unexpected incomplete, rest) = (s, rest)
  after_next continue s (unexpected bad_magic, rest) = (close s, rest)
  after_next continue s (unexpected bad_length, rest) = (close s, rest)
  after_next continue s (thrown e, rest) = (s, rest)

  -- `while (true)` of the completion handler. Each round that goes on takes a frame, so that one
  -- more than the length of the buffer is enough fuel.
  pub drain : ℕ → S → Buffer → S × Buffer
  drain zero s buffer = (s, buffer)
  drain (suc fuel) s buffer = after_next (drain fuel) s (next buffer)

  -- The completion handler of async_read_some, for the bytes that it was given.
  pub on_read : List ℕ → S × Buffer → S × Buffer
  on_read received (s, buffer) =
      drain (suc (length (feed received buffer))) s (feed received buffer)

  -- The reads of one connection: none is started once the peer is closed.
  pub read_loop : S × Buffer → List (List ℕ) → S × Buffer
  read_loop (s, buffer) [] = (s, buffer)
  read_loop (s, buffer) (chunk ∷ chunks) = elim (is_closed s) [
    | true ↦ (s, buffer)
    | false ↦ read_loop (on_read chunk (s, buffer)) chunks
  ]
