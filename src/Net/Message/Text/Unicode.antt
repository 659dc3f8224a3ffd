-- ===== src/Net/Message/Text/Unicode.antt =====
-- UTF-8 and UTF-16 of the same code points, converted into one another.
use hovorun.Prelude.{
  ℕ, zero, suc, ◌+◌, ◌-◌, ◌*◌, ◌/◌, ◌%◌, ◌≤◌, ◌<◌, ◌≡◌, refl, ◌∙◌, sym, ap, ◌⊎◌, true, false, List,
  [], ◌∷◌, ◌++◌, append-nil, arith, length, length-append, All,
}
use native.Mathlib.Decide.{dec_lt}
use hovorun.Net.Message.Text.{
  continuation, utf16_units, utf8_loop, utf8_to_utf16, utf8_bytes, utf16_to_utf8, is_high, is_low,
}

-- A Unicode scalar value: a code point that is no surrogate.
abbrev pub IsScalar : ℕ → Type 0
IsScalar c = (c < 0xD800) ⊎ ((0xE000 ≤ c) × (c < 0x110000))

abbrev pub encode_utf8 : List ℕ → List ℕ
encode_utf8 [] = []
encode_utf8 (c ∷ cs) = utf8_bytes c ++ encode_utf8 cs

abbrev pub encode_utf16 : List ℕ → List ℕ
encode_utf16 [] = []
encode_utf16 (c ∷ cs) = utf16_units c ++ encode_utf16 cs

-- One round of the outer loop takes the bytes of one code point.
two_bytes :
    (c fuel : ℕ) (s : List ℕ)
    → 0x80 ≤ c
    → c < 0x800
    → utf8_loop (suc fuel) ((0xC0 + c / 64) ∷ (0x80 + c % 64) ∷ s)
      ≡ utf16_units c ++ utf8_loop fuel s
unfolding utf8_loop continuation
two_bytes c fuel s h k = ground arith

three_bytes :
    (c fuel : ℕ) (s : List ℕ)
    → 0x800 ≤ c
    → c < 0x10000
    → utf8_loop (suc fuel) ((0xE0 + c / 4096) ∷ (0x80 + c / 64 % 64) ∷ (0x80 + c % 64) ∷ s)
      ≡ utf16_units c ++ utf8_loop fuel s
unfolding utf8_loop continuation
three_bytes c fuel s h k = ground arith

four_bytes :
    (c fuel : ℕ) (s : List ℕ)
    → 0x10000 ≤ c
    → c < 0x110000
    → utf8_loop
        (suc fuel)
        ((0xF0 + c / 262144) ∷ (0x80 + c / 4096 % 64) ∷ (0x80 + c / 64 % 64) ∷ (0x80 + c % 64) ∷ s)
      ≡ utf16_units c ++ utf8_loop fuel s
unfolding utf8_loop continuation
four_bytes c fuel s h k = ground arith

one_byte :
    (c fuel : ℕ) (s : List ℕ)
    → c < 0x80
    → utf8_loop (suc fuel) (c ∷ s) ≡ utf16_units c ++ utf8_loop fuel s
unfolding utf8_loop continuation
one_byte c fuel s h = ground arith

utf8_loop_step :
    (c fuel : ℕ) (s : List ℕ)
    → IsScalar c
    → utf8_loop (suc fuel) (utf8_bytes c ++ s) ≡ utf16_units c ++ utf8_loop fuel s
unfolding utf8_bytes
utf8_loop_step c fuel s h =
    ground (arith, one_byte c fuel s, two_bytes c fuel s, three_bytes c fuel s, four_bytes c fuel s)

length-utf8_bytes : (c : ℕ) → 0 < length (utf8_bytes c)
unfolding utf8_bytes
length-utf8_bytes c = ground arith

utf8_loop-nil : (fuel : ℕ) → utf8_loop fuel [] ≡ []
unfolding utf8_loop
utf8_loop-nil zero = refl
utf8_loop-nil (suc fuel) = refl

utf8_loop-encode :
    (cs : List ℕ) (fuel : ℕ)
    → All IsScalar cs
    → length (encode_utf8 cs) ≤ fuel
    → utf8_loop fuel (encode_utf8 cs) ≡ encode_utf16 cs
utf8_loop-encode [] fuel h k = utf8_loop-nil fuel
utf8_loop-encode (c ∷ cs) zero h k =
    absurd (omega (arith, length-utf8_bytes c, length-append (utf8_bytes c) (encode_utf8 cs)))
utf8_loop-encode (c ∷ cs) (suc fuel) h k =
    utf8_loop_step c fuel (encode_utf8 cs) h.0
    ∙ ap (◌++◌ (utf16_units c)) (
        utf8_loop-encode cs fuel h.1
          (omega (arith, length-utf8_bytes c, length-append (utf8_bytes c) (encode_utf8 cs))))

pub utf8_to_utf16-encode :
    (cs : List ℕ) → All IsScalar cs → utf8_to_utf16 (encode_utf8 cs) ≡ encode_utf16 cs
unfolding utf8_to_utf16
utf8_to_utf16-encode cs h = utf8_loop-encode cs _ h (omega arith)

-- A unit below or above the surrogates stands for itself, whatever follows.
plain_unit :
    (c : ℕ) (w : List ℕ)
    → is_high c ≡ false
    → utf16_to_utf8 (c ∷ w) ≡ utf8_bytes c ++ utf16_to_utf8 w
unfolding utf16_to_utf8
plain_unit c [] h = sym (append-nil (utf8_bytes c))
plain_unit c (d ∷ w) h = ground arith

pair_units :
    (c d : ℕ) (w : List ℕ)
    → is_high c ≡ true
    → is_low d ≡ true
    → utf16_to_utf8 (c ∷ d ∷ w)
      ≡ utf8_bytes (0x10000 + (c - 0xD800) * 1024 + (d - 0xDC00)) ++ utf16_to_utf8 w
unfolding utf16_to_utf8
pair_units c d w h k = ground arith

supplementary :
    (c : ℕ)
    → 0x10000 ≤ c
    → c < 0x110000
    → (is_high ((0xD800 + (c - 0x10000) / 1024) % 65536) ≡ true)
      × (is_low ((0xDC00 + (c - 0x10000) % 1024) % 65536) ≡ true)
      × (0x10000
            + ((0xD800 + (c - 0x10000) / 1024) % 65536 - 0xD800) * 1024
            + ((0xDC00 + (c - 0x10000) % 1024) % 65536 - 0xDC00)
          ≡ c)
supplementary c h k = (ground arith, ground arith, omega arith)

utf16_units_one : (c : ℕ) → c < 0x10000 → utf16_units c ≡ c ∷ []
unfolding utf16_units
utf16_units_one c h = ground arith

utf16_units_two :
    (c : ℕ)
    → 0x10000 ≤ c
    → utf16_units c
      ≡ (0xD800 + (c - 0x10000) / 1024) % 65536 ∷ (0xDC00 + (c - 0x10000) % 1024) % 65536 ∷ []
unfolding utf16_units
utf16_units_two c h = ground arith

utf16_to_utf8_step :
    (c : ℕ) (w : List ℕ)
    → IsScalar c
    → utf16_to_utf8 (utf16_units c ++ w) ≡ utf8_bytes c ++ utf16_to_utf8 w
utf16_to_utf8_step c w h = elim (dec_lt c 0x10000) [
  | yes small ↦ rw (utf16_units_one c small) (plain_unit c w (ground arith))
  | no large ↦
      let (high, low, value) = supplementary c (omega arith) (omega arith) in
      rw (utf16_units_two c (omega arith))
        (pair_units _ _ w high low ∙ ap (λ x. utf8_bytes x ++ utf16_to_utf8 w) value)
]

pub utf16_to_utf8-encode :
    (cs : List ℕ) → All IsScalar cs → utf16_to_utf8 (encode_utf16 cs) ≡ encode_utf8 cs
utf16_to_utf8-encode [] h = unfold utf16_to_utf8 in refl
utf16_to_utf8-encode (c ∷ cs) h =
    utf16_to_utf8_step c (encode_utf16 cs) h.0
    ∙ ap (◌++◌ (utf8_bytes c)) (utf16_to_utf8-encode cs h.1)
