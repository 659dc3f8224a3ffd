-- ===== src/Net/Framing/Drain/Resume.antt =====
-- src/proudnet/server.cpp, peer::read_loop: what a drain leaves, when more bytes arrive.
use hovorun.Prelude.{
  Bool-cases, length, length-append, ℕ, zero, suc, ◌≤◌, ◌<◌, ◌≡◌, refl, sym, ap, ◌∙◌, ◌≢◌, inl, inr,
  true, false, List, ◌++◌, arith,
}
use hovorun.Net.Framing.{
  FrameError, Frame, Buffer, next, incomplete, bad_magic, bad_length, payload, unexpected,
}
use hovorun.Net.Framing.Next.{next-append}
use hovorun.Net.Framing.Total.{next_cases}
use hovorun.Net.Framing.Drain.{Sink, drain}
use hovorun.Net.Framing.Drain.Steps.{drain_open, drain_shut, after_error, drain_error}

next-append_eq :
    (buffer more : Buffer) (f : Frame) (rest : Buffer)
    → next buffer ≡ (f, rest)
    → f ≢ unexpected incomplete
    → next (buffer ++ more) ≡ (f, rest ++ more)
next-append_eq buffer more f rest e h = next-append buffer more (rw e h) ∙ rw e

module _ {ℓ} {S : Type ℓ} (k : Sink S) where
  -- More fuel than the length of the buffer makes no difference.
  pub drain-fuel :
      (n m : ℕ) (s : S) (buffer : Buffer)
      → length buffer < n
      → length buffer < m
      → drain k n s buffer ≡ drain k m s buffer
  drain-fuel zero m s buffer h g = absurd (omega arith)
  drain-fuel (suc n) zero s buffer h g = absurd (omega arith)
  drain-fuel (suc n) (suc m) s buffer h g = elim (next_cases buffer) [
    | inr (e, p) ↦ drain_error k n s buffer buffer e p ∙ sym (drain_error k m s buffer buffer e p)
    | inl (p, rest, e, shorter) ↦ elim (Bool-cases (k.is_closed (k.process p s))) [
      | inl shut ↦
          drain_shut k n s buffer p rest e shut ∙ sym (drain_shut k m s buffer p rest e shut)
      | inr open' ↦
          drain_open k n s buffer p rest e open'
          ∙ drain-fuel n m (k.process p s) rest (omega arith) (omega arith)
          ∙ sym (drain_open k m s buffer p rest e open')
    ]
  ]

  -- The state after `more` has arrived behind what a drain left.
  pub resume : ℕ → List ℕ → S × Buffer → S
  resume l more (s, rest) = elim (k.is_closed s) [
    | true ↦ s
    | false ↦ (drain k l s (rest ++ more)).0
  ]

  pub resume_closed :
      (l : ℕ) (more : List ℕ) (s : S) (rest : Buffer)
      → k.is_closed s ≡ true
      → resume l more (s, rest) ≡ s
  unfolding resume
  resume_closed l more s rest e = rw (e, resume) refl

  pub resume_open :
      (l : ℕ) (more : List ℕ) (s : S) (rest : Buffer)
      → k.is_closed s ≡ false
      → resume l more (s, rest) ≡ (drain k l s (rest ++ more)).0
  unfolding resume
  resume_open l more s rest e = rw (e, resume) refl

  module _ (closes : (s : S) → k.is_closed (k.close s) ≡ true) where
    errors :
        (n m l : ℕ) (s : S) (buffer more : Buffer) (e : FrameError)
        → length (buffer ++ more) < suc m
        → next buffer ≡ (unexpected e, buffer)
        → suc m ≤ l
        → k.is_closed s ≡ false
        → (drain k (suc m) s (buffer ++ more)).0 ≡ resume l more (drain k (suc n) s buffer)
    unfolding after_error
    errors n m l s buffer more incomplete g p i live =
        ap (λ t. t.0) (drain-fuel (suc m) l s (buffer ++ more) g (omega arith))
        ∙ sym (resume_open l more s buffer live)
        ∙ ap (resume l more) (sym (drain_error k n s buffer buffer incomplete p))
    errors n m l s buffer more bad_magic g p i live =
        ap (λ t. t.0)
          (drain_error k m s (buffer ++ more) (buffer ++ more) bad_magic
            (next-append_eq buffer more (unexpected bad_magic) buffer p (λ x. cc)))
        ∙ sym (resume_closed l more (k.close s) buffer (closes s))
        ∙ ap (resume l more) (sym (drain_error k n s buffer buffer bad_magic p))
    errors n m l s buffer more bad_length g p i live =
        ap (λ t. t.0)
          (drain_error k m s (buffer ++ more) (buffer ++ more) bad_length
            (next-append_eq buffer more (unexpected bad_length) buffer p (λ x. cc)))
        ∙ sym (resume_closed l more (k.close s) buffer (closes s))
        ∙ ap (resume l more) (sym (drain_error k n s buffer buffer bad_length p))

    pub drain-append :
        (n m l : ℕ) (s : S) (buffer more : Buffer)
        → length buffer < n
        → length (buffer ++ more) < m
        → m ≤ l
        → k.is_closed s ≡ false
        → (drain k m s (buffer ++ more)).0 ≡ resume l more (drain k n s buffer)
    drain-append zero m l s buffer more h g i live = absurd (omega arith)
    drain-append (suc n) zero l s buffer more h g i live = absurd (omega arith)
    drain-append (suc n) (suc m) l s buffer more h g i live = elim (next_cases buffer) [
      | inl (p, rest, e, shorter) ↦
          let longer : next (buffer ++ more) ≡ (payload p, rest ++ more) =
            next-append_eq buffer more (payload p) rest e (λ x. cc) in
          elim (Bool-cases (k.is_closed (k.process p s))) [
            | inl shut ↦
                ap (λ t. t.0) (drain_shut k m s (buffer ++ more) p (rest ++ more) longer shut)
                ∙ sym (resume_closed l more (k.process p s) rest shut)
                ∙ ap (resume l more) (sym (drain_shut k n s buffer p rest e shut))
            | inr open' ↦
                ap (λ t. t.0) (drain_open k m s (buffer ++ more) p (rest ++ more) longer open')
                ∙ drain-append n m l (k.process p s) rest more (omega arith)
                    (omega (arith, length-append rest more, length-append buffer more))
                    (omega arith) open'
                ∙ ap (resume l more) (sym (drain_open k n s buffer p rest e open'))
          ]
      | inr (e, p) ↦ errors n m l s buffer more e g p i live
    ]
