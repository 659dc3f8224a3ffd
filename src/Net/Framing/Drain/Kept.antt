-- ===== src/Net/Framing/Drain/Kept.antt =====
-- src/proudnet/server.cpp, peer::read_loop: what every payload and closing keep, the loop keeps.
use hovorun.Prelude.{length, ℕ, zero, suc, Bool-cases, inl, inr, List, [], ◌∷◌}
use hovorun.Net.Framing.{
  Frame, Buffer, feed, next, incomplete, bad_magic, bad_length, payload, unexpected, thrown,
}
use hovorun.Net.Framing.Drain.{Sink, after_next, drain, on_read, read_loop}

module _ {ℓ κ} {S : Type ℓ} (k : Sink S) (P : S → Type κ)
    (process_keeps : (p : List ℕ) (s : S) → P s → P (k.process p s))
    (close_keeps : (s : S) → P s → P (k.close s)) where
  after_next-keeps :
      (continue : S → Buffer → S × Buffer) (s : S) (r : Frame × Buffer)
      → ((t : S) (rest : Buffer) → P t → P (continue t rest).0)
      → P s
      → P (after_next k continue s r).0
  unfolding after_next
  after_next-keeps continue s (payload p, rest) c h =
      elim (Bool-cases (k.is_closed (k.process p s))) [
        | inl e ↦ rw (after_next, e) (process_keeps p s h)
        | inr e ↦ rw (after_next, e) (c (k.process p s) rest (process_keeps p s h))
      ]
  after_next-keeps continue s (unexpected incomplete, rest) c h = h
  after_next-keeps continue s (unexpected bad_magic, rest) c h = close_keeps s h
  after_next-keeps continue s (unexpected bad_length, rest) c h = close_keeps s h
  after_next-keeps continue s (thrown e, rest) c h = h

  drain-keeps : (fuel : ℕ) (s : S) (buffer : Buffer) → P s → P (drain k fuel s buffer).0
  unfolding drain
  drain-keeps zero s buffer h = h
  drain-keeps (suc fuel) s buffer h =
      after_next-keeps (drain k fuel) s (next buffer) (λ t rest g. drain-keeps fuel t rest g) h

  pub read_loop-keeps :
      (chunks : List (List ℕ)) (s : S) (buffer : Buffer)
      → P s
      → P (read_loop k (s, buffer) chunks).0
  unfolding read_loop on_read
  read_loop-keeps [] s buffer h = h
  read_loop-keeps (chunk ∷ chunks) s buffer h = elim (Bool-cases (k.is_closed s)) [
    | inl e ↦ rw (read_loop, e) h
    | inr e ↦
        let received = feed chunk buffer in
        let t = drain k (suc (length received)) s received in
        rw (read_loop, e)
          (read_loop-keeps chunks t.0 t.1 (drain-keeps (suc (length received)) s received h))
  ]
