-- ===== src/Net/Message/RoundTrip.antt =====
-- What a message_writer wrote, a message_reader reads back.
use hovorun.Prelude.{
  ℕ, ◌+◌, ◌*◌, ◌/◌, ◌%◌, ◌^◌, ◌≤◌, ◌<◌, ◌≡◌, refl, ◌∙◌, sym, ap, inl, inr, Bool, true, false, List,
  [], ◌∷◌, ◌++◌, append_assoc, arith, length, length-append, ltb-false, Bool-cases, ℤ, InRange,
  in_range, in_range→InRange, All, All-append, wrap, if◌then◌else◌,
}
use mathlib.Core.Path.{ap₂, subst}
use hovorun.Net.Bytes.{le_bytes}
use hovorun.Net.Message.Text.{utf16_units, utf8_to_utf16, utf16_to_utf8}
use hovorun.Net.Message.Text.Unicode.{
  IsScalar, encode_utf8, encode_utf16, utf8_to_utf16-encode, utf16_to_utf8-encode,
}
use hovorun.Net.Message.Writer.{
  scalar_bytes, unit_bytes, ssize, unicode, write_scalar, write_text, write_byte_array,
}
use hovorun.Net.Message.Reader.{
  ok, take_bytes, read_int, read_bool, read_scalar, scalar_body, read_length, length_in,
  of_unit_bytes, unicode_body, string_body, read_string, read_byte_array, u16string_max_size,
}
use hovorun.Net.Message.Decodes.{
  Decodes, >>=-ok, Decodes-bind, Decodes-last, Decodes-read_word, Decodes-read_int,
  Decodes-take_bytes,
}

-- A size byte `k` for which `scalar_body` reads a signed value of that many bytes.
sized :
    (k h : ℕ) (v : ℤ)
    → k < 256
    → 0 < h
    → 2 * h ≡ 256 ^ k
    → scalar_body k ≡ read_int h k
    → InRange h v
    → Decodes read_scalar (le_bytes 1 k ++ le_bytes k (wrap h v)) v
unfolding read_scalar
sized k h v small p e body r =
    Decodes-bind scalar_body (Decodes-read_word 1 k (omega arith))
      (rw body (Decodes-read_int h k v p e r))

pub Decodes-read_scalar : (v : ℤ) → InRange (2 ^ 63) v → Decodes read_scalar (scalar_bytes v) v
unfolding scalar_bytes scalar_body
Decodes-read_scalar v h = elim (Bool-cases (in_range (2 ^ 7) v)) [
  | inl e ↦ rw e (sized 1 (2 ^ 7) v (omega arith) (omega arith) refl refl (in_range→InRange _ v e))
  | inr e7 ↦ elim (Bool-cases (in_range (2 ^ 15) v)) [
    | inl e ↦
        rw (e7, e)
          (sized 2 (2 ^ 15) v (omega arith) (omega arith) refl refl (in_range→InRange _ v e))
    | inr e15 ↦ elim (Bool-cases (in_range (2 ^ 31) v)) [
      | inl e ↦
          rw (e7, e15, e)
            (sized 4 (2 ^ 31) v (omega arith) (omega arith) refl refl (in_range→InRange _ v e))
      | inr e31 ↦ rw (e7, e15, e31) (sized 8 (2 ^ 63) v (omega arith) (omega arith) refl refl h)
    ]
  ]
]

pub Decodes-read_bool : (b : Bool) → Decodes read_bool (le_bytes 1 (if b then 1 else 0)) b
unfolding read_bool
Decodes-read_bool true = Decodes-last _ (Decodes-read_word 1 1 (omega arith))
Decodes-read_bool false = Decodes-last _ (Decodes-read_word 1 0 (omega arith))

-- `read_length` accepts a length that is followed by at least as many bytes.
read_length-scalar_bytes :
    (s rest : List ℕ)
    → length s < 2 ^ 63
    → read_length (scalar_bytes (ssize s) ++ (s ++ rest)) ≡ ok (length s, s ++ rest)
unfolding read_length length_in
read_length-scalar_bytes s rest h =
    >>=-ok read_scalar length_in (scalar_bytes (ssize s) ++ (s ++ rest))
      ((Decodes-read_scalar (ssize s) h).at (s ++ rest))
    ∙ rw (ltb-false (length (s ++ rest)) (length s) (omega (arith, length-append s rest)))

pub Decodes-read_byte_array :
    (s : List ℕ) → length s < 2 ^ 63 → Decodes read_byte_array (scalar_bytes (ssize s) ++ s) s
unfolding read_byte_array
Decodes-read_byte_array s h = record {
  at = λ rest. rw (append_assoc (scalar_bytes (ssize s)) s rest) (
      >>=-ok read_length take_bytes (scalar_bytes (ssize s) ++ (s ++ rest))
        (read_length-scalar_bytes s rest h)
      ∙ (Decodes-take_bytes (length s) s refl).at rest);
}

of_unit_bytes-unit_bytes :
    (us : List ℕ) → All (λ u. u < 65536) us → of_unit_bytes (unit_bytes us) ≡ us
unfolding of_unit_bytes unit_bytes
of_unit_bytes-unit_bytes [] h = refl
of_unit_bytes-unit_bytes (u ∷ us) h =
    let word : u % 256 + 256 * (u / 256 % 256 + 0) ≡ u = omega arith in
    ap₂ ◌∷◌ word (of_unit_bytes-unit_bytes us h.1)

length-unit_bytes : (us : List ℕ) → length (unit_bytes us) ≡ 2 * length us
unfolding unit_bytes
length-unit_bytes [] = omega arith
length-unit_bytes (u ∷ us) = omega (arith, length-unit_bytes us)

utf16_units-lt : (c : ℕ) → All (λ u. u < 65536) (utf16_units c)
unfolding utf16_units
utf16_units-lt c = ground arith

encode_utf16-lt : (cs : List ℕ) → All (λ u. u < 65536) (encode_utf16 cs)
encode_utf16-lt [] = tt
encode_utf16-lt (c ∷ cs) = All-append _ (utf16_units c) _ (utf16_units-lt c) (encode_utf16-lt cs)

-- Text that is valid UTF-8 and short enough for a std::u16string.
pub record IsText (s : List ℕ) : Type 0 where
  pub points : List ℕ
  pub scalar : All IsScalar points
  pub encoded : s ≡ encode_utf8 points
  pub fits : length (utf8_to_utf16 s) ≤ u16string_max_size

unicode_body-unit_bytes :
    (us : List ℕ)
    → All (λ u. u < 65536) us
    → length us ≤ u16string_max_size
    → Decodes (unicode_body (length us)) (unit_bytes us) (utf16_to_utf8 us)
unfolding unicode_body
unicode_body-unit_bytes us small fits = rw (ltb-false u16string_max_size (length us) fits) (
    rw (of_unit_bytes-unit_bytes us small) at (
      Decodes-last (λ raw. utf16_to_utf8 (of_unit_bytes raw))
        (Decodes-take_bytes (2 * length us) (unit_bytes us) (length-unit_bytes us))))

-- The bytes that write_wstring adds.
abbrev pub wstring_bytes : List ℕ → List ℕ
wstring_bytes us = le_bytes 1 unicode ++ (scalar_bytes (ssize us) ++ unit_bytes us)

read_string-wstring_bytes :
    (us : List ℕ)
    → All (λ u. u < 65536) us
    → length us ≤ u16string_max_size
    → Decodes read_string (wstring_bytes us) (utf16_to_utf8 us)
unfolding read_string string_body
read_string-wstring_bytes us small fits =
    Decodes-bind _ (Decodes-read_word 1 unicode (omega arith)) (
      Decodes-bind _ (Decodes-read_scalar (ssize us) (omega arith))
        (unicode_body-unit_bytes us small fits))

IsText-utf16 : (s : List ℕ) (t : IsText s) → utf8_to_utf16 s ≡ encode_utf16 t.points
IsText-utf16 s t = ap utf8_to_utf16 t.encoded ∙ utf8_to_utf16-encode t.points t.scalar

-- Text survives the conversion to UTF-16 and back.
utf16_to_utf8-utf8_to_utf16 : (s : List ℕ) → IsText s → utf16_to_utf8 (utf8_to_utf16 s) ≡ s
utf16_to_utf8-utf8_to_utf16 s t =
    ap utf16_to_utf8 (IsText-utf16 s t) ∙ utf16_to_utf8-encode t.points t.scalar ∙ sym t.encoded

pub Decodes-read_string :
    (s : List ℕ) → IsText s → Decodes read_string (wstring_bytes (utf8_to_utf16 s)) s
Decodes-read_string s t = rw (utf16_to_utf8-utf8_to_utf16 s t) at (
    read_string-wstring_bytes (utf8_to_utf16 s)
      (subst (All (λ u. u < 65536)) (sym (IsText-utf16 s t)) (encode_utf16-lt t.points)) t.fits)

-- `read_scalar` returns what `write_scalar` was given, for each of the 2^64 values of an int64_t,
-- and leaves the bytes that follow.
pub read_scalar-write_scalar :
    (v : ℤ) (rest : List ℕ)
    → InRange (2 ^ 63) v
    → read_scalar (write_scalar v [] ++ rest) ≡ ok (v, rest)
read_scalar-write_scalar v rest h = (Decodes-read_scalar v h).at rest

-- `read_string` returns the text that `write_text` was given: the bytes of any list of Unicode
-- scalar values in UTF-8 that a std::u16string can hold, in front of any further bytes.
pub read_string-write_text :
    (s rest : List ℕ) → IsText s → read_string (write_text s [] ++ rest) ≡ ok (s, rest)
read_string-write_text s rest t =
    simp append_assoc (simp append_assoc at ((Decodes-read_string s t).at rest))

-- `read_byte_array` returns the bytes that `write_byte_array` was given, if a ptrdiff_t can count
-- them, and leaves the bytes that follow.
pub read_byte_array-write_byte_array :
    (s rest : List ℕ)
    → length s < 2 ^ 63
    → read_byte_array (write_byte_array s [] ++ rest) ≡ ok (s, rest)
read_byte_array-write_byte_array s rest h = (Decodes-read_byte_array s h).at rest
