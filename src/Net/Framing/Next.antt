-- ===== src/Net/Framing/Next.antt =====
-- src/net/framing.hpp, frame_parser::next: what it takes, and that it waits for no more than it needs.
use hovorun.Prelude.{
  ℕ, suc, ◌+◌, ◌-◌, ◌^◌, ◌≤◌, ◌≡◌, ◌≢◌, refl, ◌∙◌, ap, inl, inr, true, false, List, [], ◌∷◌, ◌++◌,
  append_assoc, append-nil, arith, length, length-append, length-drop, take, drop, take-append,
  drop-append, take-append_le, drop-append_le, get_or, get_or-append_lt, ltb, ltb-false, Bool-cases,
  ℤ, pos, negsuc, in_range, wrap,
}
use hovorun.Net.Bytes.{le_bytes, length-le_bytes}
use hovorun.Net.Message.Writer.{scalar_bytes, ssize}
use hovorun.Net.Message.Reader.{Result, ok, err, read_scalar}
use hovorun.Net.Message.RoundTrip.{Decodes-read_scalar}
use hovorun.Net.Framing.{
  payload, unexpected, incomplete, Buffer, max_frame_payload, make_frame, next, cut, after_magic,
  is_scalar_size,
}

cut-append :
    (header : ℕ) (r : Result (ℤ × List ℕ)) (buffer more : Buffer)
    → (cut header r buffer).0 ≢ unexpected incomplete
    → cut header r (buffer ++ more) ≡ ((cut header r buffer).0, (cut header r buffer).1 ++ more)
unfolding cut
cut-append header (err e) buffer more h = refl
cut-append header (ok (negsuc n, _)) buffer more h = refl
cut-append header (ok (pos n, _)) buffer more h = ground (
  arith,
  length-append buffer more,
  length-drop header buffer,
  drop-append_le header buffer more,
  take-append_le n (drop header buffer) more,
  drop-append_le (header + n) buffer more,
)

after_magic-append :
    (size : ℕ) (buffer more : Buffer)
    → 3 ≤ length buffer
    → (after_magic size buffer).0 ≢ unexpected incomplete
    → after_magic size (buffer ++ more)
      ≡ ((after_magic size buffer).0, (after_magic size buffer).1 ++ more)
unfolding after_magic
after_magic-append size buffer more long h = ground (
  arith,
  length-append buffer more,
  length-drop 2 buffer,
  drop-append_le 2 buffer more,
  take-append_le (3 + size - 2) (drop 2 buffer) more,
  cut-append (3 + size) (read_scalar (take (3 + size - 2) (drop 2 buffer))) buffer more,
)

-- Once `next` has an answer other than `incomplete`, more bytes do not change it.
pub next-append :
    (buffer more : Buffer)
    → (next buffer).0 ≢ unexpected incomplete
    → next (buffer ++ more) ≡ ((next buffer).0, (next buffer).1 ++ more)
unfolding next
next-append buffer more h = ground (
  arith,
  length-append buffer more,
  get_or-append_lt buffer more 0 0,
  get_or-append_lt buffer more 1 0,
  get_or-append_lt buffer more 2 0,
  after_magic-append (get_or buffer 2 0) buffer more,
)

-- The prefix of a frame, up to its payload, is taken as it was written.
next_header :
    (k : ℕ) (body tail : List ℕ)
    → is_scalar_size k ≡ true
    → length body ≡ k
    → next (0x13 ∷ 0x57 ∷ k ∷ (body ++ tail))
      ≡ cut (3 + k) (read_scalar (k ∷ body)) (0x13 ∷ 0x57 ∷ k ∷ (body ++ tail))
unfolding next after_magic
next_header k body tail size e =
    let short : 3 + k - 2 ≡ suc (length body) = omega arith in
    let taken : take (3 + k - 2) (k ∷ (body ++ tail)) ≡ k ∷ body =
      rw short (ap (◌∷◌ k) (take-append body tail)) in
    let long : ltb (length (body ++ tail)) k ≡ false =
      ltb-false _ _ (omega (arith, length-append body tail)) in
    ground (arith, taken, long, length-append body tail)

scalar_shape :
    (v : ℤ)
    → (k : ℕ) × (body : List ℕ) × (scalar_bytes v ≡ k ∷ body)
      × (length body ≡ k)
      × (is_scalar_size k ≡ true)
unfolding scalar_bytes is_scalar_size
scalar_shape v = elim (Bool-cases (in_range (2 ^ 7) v)) [
  | inl e ↦ (1, le_bytes 1 (wrap (2 ^ 7) v), rw e refl, length-le_bytes 1 (wrap (2 ^ 7) v), refl)
  | inr e7 ↦ elim (Bool-cases (in_range (2 ^ 15) v)) [
    | inl e ↦ (
      2,
      le_bytes 2 (wrap (2 ^ 15) v),
      rw (e7, e) refl,
      length-le_bytes 2 (wrap (2 ^ 15) v),
      refl,
    )
    | inr e15 ↦ elim (Bool-cases (in_range (2 ^ 31) v)) [
      | inl e ↦ (
        4,
        le_bytes 4 (wrap (2 ^ 31) v),
        rw (e7, e15, e) refl,
        length-le_bytes 4 (wrap (2 ^ 31) v),
        refl,
      )
      | inr e31 ↦ (
        8,
        le_bytes 8 (wrap (2 ^ 63) v),
        rw (e7, e15, e31) refl,
        length-le_bytes 8 (wrap (2 ^ 63) v),
        refl,
      )
    ]
  ]
]

cut_front :
    (front p rest tail : List ℕ)
    → length p ≤ max_frame_payload
    → cut (length front) (ok (ssize p, tail)) (front ++ (p ++ rest)) ≡ (payload p, rest)
unfolding cut
cut_front front p rest tail h =
    let gone : drop (length front + length p) (front ++ (p ++ rest)) ≡ rest =
      rw (← length-append front p, ← append_assoc front p rest) (drop-append (front ++ p) rest) in
    ground (
      arith,
      gone,
      drop-append front (p ++ rest),
      take-append p rest,
      length-append front (p ++ rest),
      length-append p rest,
    )

-- `next` takes one whole frame that `make_frame` built of a payload within the limit, and leaves the
-- bytes that follow it.
pub next-make_frame :
    (p rest : List ℕ)
    → length p ≤ max_frame_payload
    → next (make_frame p ++ rest) ≡ (payload p, rest)
unfolding make_frame le_bytes
next-make_frame p rest h =
    let (k, body, shape, len, size) = scalar_shape (ssize p) in
    let whole : read_scalar (k ∷ body) ≡ ok (ssize p, []) =
      rw (append-nil, shape) at ((Decodes-read_scalar (ssize p) (omega arith)).at []) in
    let header : length (0x13 ∷ 0x57 ∷ k ∷ body) ≡ 3 + k = omega arith in
    rw (shape, append_assoc body p rest)
      (next_header k body (p ++ rest) size len
        ∙ rw (whole, ← header) (cut_front (0x13 ∷ 0x57 ∷ k ∷ body) p rest [] h))
