-- ===== src/Net/Framing/Drain/Steps.antt =====
-- One round of the loop in src/proudnet/server.cpp, peer::read_loop, for each answer of `next`.
use hovorun.Prelude.{ℕ, suc, ◌≡◌, refl, true, false, List}
use hovorun.Net.Framing.{
  FrameError, Buffer, next, incomplete, bad_magic, bad_length, payload, unexpected,
}
use hovorun.Net.Framing.Drain.{Sink, drain, after_next}

module _ {ℓ} {S : Type ℓ} (k : Sink S) where
  pub drain_open :
      (n : ℕ) (s : S) (buffer : Buffer) (p : List ℕ) (rest : Buffer)
      → next buffer ≡ (payload p, rest)
      → k.is_closed (k.process p s) ≡ false
      → drain k (suc n) s buffer ≡ drain k n (k.process p s) rest
  unfolding drain after_next
  drain_open n s buffer p rest e h = rw (e, h, after_next) refl

  pub drain_shut :
      (n : ℕ) (s : S) (buffer : Buffer) (p : List ℕ) (rest : Buffer)
      → next buffer ≡ (payload p, rest)
      → k.is_closed (k.process p s) ≡ true
      → drain k (suc n) s buffer ≡ (k.process p s, rest)
  unfolding drain after_next
  drain_shut n s buffer p rest e h = rw (e, h, after_next) refl

  -- What an error does to the peer.
  unfoldable pub after_error : FrameError → S → S
  after_error incomplete s = s
  after_error bad_magic s = k.close s
  after_error bad_length s = k.close s

  pub drain_error :
      (n : ℕ) (s : S) (buffer rest : Buffer) (e : FrameError)
      → next buffer ≡ (unexpected e, rest)
      → drain k (suc n) s buffer ≡ (after_error e s, rest)
  unfolding after_error drain after_next
  drain_error n s buffer rest incomplete e = rw e
  drain_error n s buffer rest bad_magic e = rw e
  drain_error n s buffer rest bad_length e = rw e
