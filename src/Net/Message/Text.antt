-- ===== src/Net/Message/Text.antt =====
-- src/net/message.hpp, utf8_to_utf16 and utf16_to_utf8. A string is the list of its bytes, a
-- u16string the list of its code units. Masks and shifts are written as remainders and quotients:
-- `b & 0x1F` is `b % 32`, and the low six bits of `c << 6` are zero, so that `|` there is a sum.
pub mod Unicode
use hovorun.Prelude.{
  ℕ, zero, suc, ◌+◌, ◌-◌, ◌*◌, ◌/◌, ◌%◌, Bool, true, false, ◌&&◌, List, [], ◌∷◌, ◌++◌, ltb, leb,
  ◌==◌, length, if◌then◌else◌,
}

-- The bits of the lead byte, and how many bytes should follow it.
unfoldable pub lead_byte : ℕ → ℕ × ℕ
lead_byte b =
    if ltb b 0x80
    then (b, 0)
    else if b / 32 == 6
    then (b % 32, 1)
    else if b / 16 == 14
    then (b % 16, 2)
    else (b % 8, 3)

-- The inner loop: it stops early where the text ends.
unfoldable pub continuation : ℕ → ℕ → List ℕ → ℕ × List ℕ
continuation zero c s = (c, s)
continuation (suc extra) c [] = (c, [])
continuation (suc extra) c (b ∷ s) = continuation extra (c * 64 + b % 64) s

-- The code units that one code point adds to `out`.
unfoldable pub utf16_units : ℕ → List ℕ
utf16_units c =
    if leb 0x10000 c
    then (0xD800 + (c - 0x10000) / 1024) % 65536 ∷ (0xDC00 + (c - 0x10000) % 1024) % 65536 ∷ []
    else c % 65536 ∷ []

-- The outer loop; a round takes a byte at least, so the length is enough fuel.
unfoldable pub utf8_loop : ℕ → List ℕ → List ℕ
unfolding lead_byte
utf8_loop fuel [] = []
utf8_loop zero (b ∷ s) = []
utf8_loop (suc fuel) (b ∷ s) =
    let (c, s') = continuation (lead_byte b).1 (lead_byte b).0 s in
    utf16_units c ++ utf8_loop fuel s'

unfoldable pub utf8_to_utf16 : List ℕ → List ℕ
unfolding utf8_loop continuation utf16_units
utf8_to_utf16 s = utf8_loop (length s) s

-- The bytes that one code point adds to `out`.
unfoldable pub utf8_bytes : ℕ → List ℕ
utf8_bytes c =
    if ltb c 0x80
    then c ∷ []
    else if ltb c 0x800
    then (0xC0 + c / 64) ∷ (0x80 + c % 64) ∷ []
    else if ltb c 0x10000
    then (0xE0 + c / 4096) ∷ (0x80 + c / 64 % 64) ∷ (0x80 + c % 64) ∷ []
    else (0xF0 + c / 262144) ∷ (0x80 + c / 4096 % 64) ∷ (0x80 + c / 64 % 64) ∷ (0x80 + c % 64) ∷ []

abbrev pub is_high : ℕ → Bool
is_high c = leb 0xD800 c && leb c 0xDBFF

abbrev pub is_low : ℕ → Bool
is_low c = leb 0xDC00 c && leb c 0xDFFF

unfoldable pub utf16_to_utf8 : List ℕ → List ℕ
unfolding utf8_bytes
utf16_to_utf8 [] = []
utf16_to_utf8 (c ∷ []) = utf8_bytes c
utf16_to_utf8 (c ∷ d ∷ w) = elim (is_high c && is_low d) [
  | true ↦ utf8_bytes (0x10000 + (c - 0xD800) * 1024 + (d - 0xDC00)) ++ utf16_to_utf8 w
  | false ↦ utf8_bytes c ++ utf16_to_utf8 (d ∷ w)
]
