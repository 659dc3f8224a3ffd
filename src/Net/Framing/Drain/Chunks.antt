-- ===== src/Net/Framing/Drain/Chunks.antt =====
-- src/proudnet/server.cpp, peer::read_loop: how the stream is cut into reads does not matter.
use hovorun.Prelude.{
  Bool-cases, length, length-append, All, ℕ, zero, suc, ◌+◌, ◌≤◌, ◌<◌, ◌≡◌, refl, sym, ap, ◌∙◌, inl,
  inr, true, false, List, [], ◌∷◌, ◌++◌, map, append_assoc, append-nil, flatten, arith,
}
use hovorun.Net.Bytes.{le_bytes}
use hovorun.Net.Framing.{
  max_frame_payload, make_frame, FrameError, Buffer, feed, next, incomplete, bad_magic, bad_length,
  unexpected,
}
use hovorun.Net.Framing.Next.{next-make_frame}
use hovorun.Net.Framing.Total.{next_cases}
use hovorun.Net.Framing.Drain.{Sink, drain, on_read, read_loop}
use hovorun.Net.Framing.Drain.Resume.{resume, resume_closed, resume_open, drain-append}
use hovorun.Net.Framing.Drain.Steps.{drain_open, drain_shut, after_error, drain_error}

make_frame_nonempty : (p : List ℕ) → 0 < length (make_frame p)
unfolding make_frame le_bytes
make_frame_nonempty p = omega arith

-- The payloads of `ps` in order, up to the first that closes the peer.
unfoldable pub take_all {ℓ} : {S : Type ℓ} → Sink S → S → List (List ℕ) → S
take_all k s [] = s
take_all k s (p ∷ ps) = elim (k.is_closed (k.process p s)) [
  | true ↦ k.process p s
  | false ↦ take_all k (k.process p s) ps
]

module _ {ℓ} {S : Type ℓ} (k : Sink S) (closes : (s : S) → k.is_closed (k.close s) ≡ true) where
  drained_error :
      (n : ℕ) (s : S) (buffer : Buffer) (e : FrameError)
      → next buffer ≡ (unexpected e, buffer)
      → k.is_closed (drain k (suc n) s buffer).0 ≡ false
      → next (drain k (suc n) s buffer).1 ≡ (unexpected incomplete, (drain k (suc n) s buffer).1)
  unfolding after_error
  drained_error n s buffer incomplete p live = rw (drain_error k n s buffer buffer incomplete p) p
  drained_error n s buffer bad_magic p live =
      cc (closes s, rw (drain_error k n s buffer buffer bad_magic p) at live)
  drained_error n s buffer bad_length p live =
      cc (closes s, rw (drain_error k n s buffer buffer bad_length p) at live)

  -- A drain that leaves the peer open has come to an incomplete frame.
  drained :
      (n : ℕ) (s : S) (buffer : Buffer)
      → length buffer < n
      → k.is_closed (drain k n s buffer).0 ≡ false
      → next (drain k n s buffer).1 ≡ (unexpected incomplete, (drain k n s buffer).1)
  drained zero s buffer h live = absurd (omega arith)
  drained (suc n) s buffer h live = elim (next_cases buffer) [
    | inl (p, rest, e, shorter) ↦ elim (Bool-cases (k.is_closed (k.process p s))) [
      | inl shut ↦ cc (shut, rw (drain_shut k n s buffer p rest e shut) at live)
      | inr open' ↦
          let step = drain_open k n s buffer p rest e open' in
          rw step (drained n (k.process p s) rest (omega arith) (rw step at live))
    ]
    | inr (e, p) ↦ drained_error n s buffer e p live
  ]

  read_loop_closed :
      (s : S) (buffer : Buffer) (chunks : List (List ℕ))
      → k.is_closed s ≡ true
      → read_loop k (s, buffer) chunks ≡ (s, buffer)
  unfolding read_loop
  read_loop_closed s buffer [] e = refl
  read_loop_closed s buffer (chunk ∷ chunks) e = rw (e, read_loop) refl

  read_loop_open :
      (s : S) (buffer : Buffer) (chunk : List ℕ) (chunks : List (List ℕ))
      → k.is_closed s ≡ false
      → read_loop k (s, buffer) (chunk ∷ chunks)
        ≡ read_loop k (drain k (suc (length (buffer ++ chunk))) s (buffer ++ chunk)) chunks
  unfolding read_loop on_read feed
  read_loop_open s buffer chunk chunks e = rw (e, read_loop) refl

  read_loop-resume :
      (l : ℕ) (s : S) (buffer : Buffer) (chunks : List (List ℕ))
      → (k.is_closed s ≡ false
          → (read_loop k (s, buffer) chunks).0 ≡ (drain k l s (buffer ++ flatten chunks)).0)
      → (read_loop k (s, buffer) chunks).0 ≡ resume k l (flatten chunks) (s, buffer)
  read_loop-resume l s buffer chunks h = elim (Bool-cases (k.is_closed s)) [
    | inl shut ↦
        ap (λ t. t.0) (read_loop_closed s buffer chunks shut)
        ∙ sym (resume_closed k l (flatten chunks) s buffer shut)
    | inr live ↦ h live ∙ sym (resume_open k l (flatten chunks) s buffer live)
  ]

  read_loop-drain :
      (chunks : List (List ℕ)) (m : ℕ) (s : S) (buffer : Buffer)
      → k.is_closed s ≡ false
      → next buffer ≡ (unexpected incomplete, buffer)
      → length (buffer ++ flatten chunks) < m
      → (read_loop k (s, buffer) chunks).0 ≡ (drain k m s (buffer ++ flatten chunks)).0
  unfolding flatten after_error read_loop
  read_loop-drain [] zero s buffer live e h = absurd (omega arith)
  read_loop-drain [] (suc m) s buffer live e h =
      rw append-nil (sym (ap (λ t. t.0) (drain_error k m s buffer buffer incomplete e)))
  read_loop-drain (chunk ∷ chunks) m s buffer live e h =
      let front : Buffer = buffer ++ chunk in
      let n : ℕ = suc (length front) in
      let left : S × Buffer = drain k n s front in
      let l : ℕ = suc (m + length (left.1 ++ flatten chunks)) in
      rw (← append_assoc buffer chunk (flatten chunks)) (
        ap (λ t. t.0) (read_loop_open s buffer chunk chunks live)
        ∙ read_loop-resume l left.0 left.1 chunks (λ open'.
          read_loop-drain chunks l left.0 left.1 open' (drained n s front (omega arith) open')
            (omega arith))
        ∙ sym (
            drain-append k closes n m l s front (flatten chunks) (omega arith)
              (rw (append_assoc buffer chunk (flatten chunks)) h) (omega arith) live))

  empty : next [] ≡ (unexpected incomplete, [])
  unfolding next
  empty = refl

  one_read :
      (s : S) (chunk : List ℕ)
      → k.is_closed s ≡ false
      → read_loop k (s, []) (chunk ∷ []) ≡ drain k (suc (length chunk)) s chunk
  unfolding read_loop
  one_read s chunk live = read_loop_open s [] chunk [] live

  -- However the bytes of a connection are cut into reads, the peer comes to the state that it
  -- reaches on reading them all at once, if closing a peer closes it.
  pub read_loop-flatten :
      (s : S) (chunks : List (List ℕ))
      → k.is_closed s ≡ false
      → (read_loop k (s, []) chunks).0 ≡ (read_loop k (s, []) (flatten chunks ∷ [])).0
  read_loop-flatten s chunks live =
      read_loop-drain chunks (suc (length (flatten chunks))) s [] live empty (omega arith)
      ∙ ap (λ t. t.0) (sym (one_read s (flatten chunks) live))

  drain-frames :
      (ps : List (List ℕ)) (m : ℕ) (s : S)
      → All (λ p. length p ≤ max_frame_payload) ps
      → length (flatten (map make_frame ps)) < m
      → (drain k m s (flatten (map make_frame ps))).0 ≡ take_all k s ps
  unfolding flatten take_all after_error
  drain-frames ps zero s fits h = absurd (omega arith)
  drain-frames [] (suc m) s fits h = ap (λ t. t.0) (drain_error k m s [] [] incomplete empty)
  drain-frames (p ∷ ps) (suc m) s fits h =
      let more = flatten (map make_frame ps) in
      let first = next-make_frame p more fits.0 in
      elim (Bool-cases (k.is_closed (k.process p s))) [
        | inl shut ↦
            rw (shut, take_all)
              (ap (λ t. t.0) (drain_shut k m s (make_frame p ++ more) p more first shut))
        | inr live ↦
            rw (live, take_all)
              (ap (λ t. t.0) (drain_open k m s (make_frame p ++ more) p more first live)
                ∙ drain-frames ps m (k.process p s) fits.1
                    (omega (arith, make_frame_nonempty p, length-append (make_frame p) more)))
      ]

  -- The frames of payloads within the limit, however they are cut into reads, hand the peer those
  -- payloads in order, up to the first that closes it, if closing a peer closes it.
  pub read_loop-make_frame :
      (s : S) (ps chunks : List (List ℕ))
      → k.is_closed s ≡ false
      → All (λ p. length p ≤ max_frame_payload) ps
      → flatten chunks ≡ flatten (map make_frame ps)
      → (read_loop k (s, []) chunks).0 ≡ take_all k s ps
  read_loop-make_frame s ps chunks live fits e =
      read_loop-drain chunks (suc (length (flatten chunks))) s [] live empty (omega arith)
      ∙ rw e (drain-frames ps _ s fits (omega arith))
