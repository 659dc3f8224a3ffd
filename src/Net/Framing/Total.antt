-- ===== src/Net/Framing/Total.antt =====
-- src/net/framing.hpp, frame_parser::next: it throws nothing, and shortens the buffer by what it takes.
use hovorun.Prelude.{
  ltb, ltb-false, if_elim, length, take, drop, get_or, length-drop, ℤ, signed, pos, negsuc, ℕ, zero,
  suc, ◌+◌, ◌-◌, ◌^◌, ◌≤◌, ◌<◌, ◌≡◌, refl, ap, ◌∙◌, ◌≢◌, ◌⊎◌, inl, inr, true, not, List, [], ◌∷◌,
  arith,
}
use hovorun.Net.Bytes.{of_le}
use hovorun.Net.Message.Reader.{
  Error, Result, pure, take_bytes, read_word, read_int, scalar_body, read_scalar, ok, err,
}
use hovorun.Net.Message.Decodes.{>>=-ok}
use hovorun.Net.Framing.{
  max_frame_payload, FrameError, Frame, Buffer, next, incomplete, bad_magic, bad_length, payload,
  unexpected, thrown, cut, after_magic, is_scalar_size,
}

word_total : (k : ℕ) (r : List ℕ) → k ≤ length r → read_word k r ≡ ok (of_le (take k r), drop k r)
unfolding read_word
word_total k r h = >>=-ok (take_bytes k) (λ raw. pure (of_le raw)) r (rw (ltb-false (length r) k h))

int_total :
    (h k : ℕ) (r : List ℕ) → k ≤ length r → (v : ℤ) × (s : List ℕ) × (read_int h k r ≡ ok (v, s))
unfolding read_int
int_total h k r p = (
  signed h (of_le (take k r)),
  drop k r,
  >>=-ok (read_word k) (λ x. pure (signed h x)) r (word_total k r p),
)

size_cases : (k : ℕ) → is_scalar_size k ≡ true → (k ≡ 1) ⊎ ((k ≡ 2) ⊎ ((k ≡ 4) ⊎ (k ≡ 8)))
unfolding is_scalar_size
size_cases k h = ground arith

body_total :
    (k : ℕ) (body : List ℕ)
    → is_scalar_size k ≡ true
    → k ≤ length body
    → (v : ℤ) × (s : List ℕ) × (scalar_body k body ≡ ok (v, s))
unfolding scalar_body
body_total k body size e = elim (size_cases k size) [
  | inl p ↦ rw p (int_total (2 ^ 7) 1 body (rw (← p) e))
  | inr (inl p) ↦ rw p (int_total (2 ^ 15) 2 body (rw (← p) e))
  | inr (inr (inl p)) ↦ rw p (int_total (2 ^ 31) 4 body (rw (← p) e))
  | inr (inr (inr p)) ↦ rw p (int_total (2 ^ 63) 8 body (rw (← p) e))
]

read_scalar_total :
    (k : ℕ) (body : List ℕ)
    → is_scalar_size k ≡ true
    → k ≤ length body
    → (v : ℤ) × (s : List ℕ) × (read_scalar (k ∷ body) ≡ ok (v, s))
unfolding read_scalar of_le
read_scalar_total k body size e =
    let (v, s, p) = body_total k body size e in
    let first : read_word 1 (k ∷ body) ≡ ok (k, body) =
      word_total 1 (k ∷ body) (omega arith) ∙ ap (λ x. ok (x, body)) (omega arith) in
    (v, s, >>=-ok (read_word 1) scalar_body (k ∷ body) first ∙ p)

cut-ne-thrown :
    (header : ℕ) (v : ℤ) (s : List ℕ) (buffer : Buffer) (e : Error)
    → (cut header (ok (v, s)) buffer).0 ≢ thrown e
unfolding cut
cut-ne-thrown header (pos n) s buffer e = ground arith
cut-ne-thrown header (negsuc n) s buffer e = ground arith

length-take_eq : (n : ℕ) (s : List ℕ) → n ≤ length s → length (take n s) ≡ n
length-take_eq zero s h = refl
length-take_eq (suc n) [] h = absurd (omega arith)
length-take_eq (suc n) (x ∷ s) h = ap suc (length-take_eq n s (omega arith))

header_ne_thrown :
    (a b k : ℕ) (s : List ℕ) (e : Error)
    → is_scalar_size k ≡ true
    → k ≤ length s
    → (cut (3 + k) (read_scalar (take (3 + k - 2) (k ∷ s))) (a ∷ b ∷ k ∷ s)).0 ≢ thrown e
header_ne_thrown a b k s e size h =
    let short : 3 + k - 2 ≡ suc k = omega arith in
    let (v, r, p) = read_scalar_total k (take k s) size (omega (arith, length-take_eq k s h)) in
    rw (short, p) (cut-ne-thrown (3 + k) v r (a ∷ b ∷ k ∷ s) e)

-- `next` throws no exception: where it reads the length, the bytes of the length are there.
pub next-ne-thrown : (buffer : Buffer) (e : Error) → (next buffer).0 ≢ thrown e
unfolding next after_magic
next-ne-thrown [] e = ground arith
next-ne-thrown (a ∷ []) e = ground arith
next-ne-thrown (a ∷ b ∷ []) e = ground arith
next-ne-thrown (a ∷ b ∷ k ∷ s) e = ground (arith, header_ne_thrown a b k s e)

-- What `next` may return: a payload that leaves a shorter buffer, or an error that leaves it alone.
data Answer (buffer : Buffer) : Frame × Buffer → Type 0 where
  takes :
      (p : List ℕ) (rest : Buffer) → length rest < length buffer → Answer buffer (payload p, rest)
  refuses : (e : FrameError) → Answer buffer (unexpected e, buffer)
  throws : (e : Error) → Answer buffer (thrown e, buffer)

cut-Answer :
    (header : ℕ) (r : Result (ℤ × List ℕ)) (buffer : Buffer)
    → 0 < header
    → Answer buffer (cut header r buffer)
unfolding cut
cut-Answer header (err e) buffer h = throws e
cut-Answer header (ok (negsuc n, s)) buffer h = refuses bad_length
cut-Answer header (ok (pos n, s)) buffer h =
    if_elim (Answer buffer) (ltb max_frame_payload n) (λ _. refuses bad_length)
      (λ _.
        if_elim (Answer buffer) (ltb (length buffer) (header + n)) (λ _. refuses incomplete)
          (λ e. takes _ _ (ground (arith, length-drop (header + n) buffer))))

after_magic-Answer : (size : ℕ) (buffer : Buffer) → Answer buffer (after_magic size buffer)
unfolding after_magic
after_magic-Answer size buffer =
    if_elim (Answer buffer) (not (is_scalar_size size)) (λ _. refuses bad_length)
      (λ _.
        if_elim (Answer buffer) (ltb (length buffer) (3 + size)) (λ _. refuses incomplete)
          (λ _. cut-Answer (3 + size) _ buffer (omega arith)))

next-Answer : (buffer : Buffer) → Answer buffer (next buffer)
unfolding next
next-Answer buffer =
    if_elim (Answer buffer) (ltb (length buffer) 3) (λ _. refuses incomplete)
      (λ _.
        if_elim (Answer buffer) _ (λ _. refuses bad_magic)
          (λ _. after_magic-Answer (get_or buffer 2 0) buffer))

Answer-split :
    (buffer : Buffer) (r : Frame × Buffer)
    → Answer buffer r
    → ((e : Error) → r.0 ≢ thrown e)
    → ((p : List ℕ) × (rest : Buffer) × (r ≡ (payload p, rest)) × (length rest < length buffer))
      ⊎ ((e : FrameError) × (r ≡ (unexpected e, buffer)))
Answer-split buffer r (takes p rest h) safe = inl (p, rest, refl, h)
Answer-split buffer r (refuses e) safe = inr (e, refl)
Answer-split buffer r (throws e) safe = absurd (safe e refl)

-- `next` takes a payload and leaves a shorter buffer, or reports an error and leaves the buffer as
-- it was.
pub next_cases :
    (buffer : Buffer)
    → ((p : List ℕ) × (rest : Buffer) × (next buffer ≡ (payload p, rest))
        × (length rest < length buffer))
      ⊎ ((e : FrameError) × (next buffer ≡ (unexpected e, buffer)))
next_cases buffer = Answer-split buffer (next buffer) (next-Answer buffer) (next-ne-thrown buffer)
