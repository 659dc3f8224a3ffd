-- ===== src/Net/Message/Writer.antt =====
-- src/net/message.hpp, message_writer, which is the list of the bytes written so far. A method takes
-- the writer last, so that a chain of calls reads as in the source. A float or a double is the bit
-- pattern that is written.
use hovorun.Prelude.{
  ℕ, ◌^◌, Bool, List, [], ◌∷◌, ◌++◌, length, ℤ, pos, wrap, in_range, if◌then◌else◌,
}
use hovorun.Net.Bytes.{le_bytes}
use hovorun.Net.Message.Text.{utf8_to_utf16}

abbrev pub Writer : Type 0
Writer = List ℕ

-- `w.f(…); w.g(…);`
infixl 5 ◌▹◌
abbrev pub ◌▹◌ : Writer → (Writer → Writer) → Writer
w ▹ f = f w

abbrev pub ansi : ℕ
ansi = 1

abbrev pub unicode : ℕ
unicode = 2

abbrev pub write_bytes : List ℕ → Writer → Writer
write_bytes src w = w ++ src

abbrev pub write_word : ℕ → ℕ → Writer → Writer
write_word size v w = w ++ le_bytes size v

abbrev pub write_u8 : ℕ → Writer → Writer
write_u8 = write_word 1

abbrev pub write_u16 : ℕ → Writer → Writer
write_u16 = write_word 2

abbrev pub write_u32 : ℕ → Writer → Writer
write_u32 = write_word 4

abbrev pub write_u64 : ℕ → Writer → Writer
write_u64 = write_word 8

abbrev pub write_f32 : ℕ → Writer → Writer
write_f32 = write_word 4

abbrev pub write_f64 : ℕ → Writer → Writer
write_f64 = write_word 8

abbrev pub write_i32 : ℤ → Writer → Writer
write_i32 v = write_word 4 (wrap (2 ^ 31) v)

abbrev pub write_i64 : ℤ → Writer → Writer
write_i64 v = write_word 8 (wrap (2 ^ 63) v)

abbrev pub write_bool : Bool → Writer → Writer
write_bool v = write_u8 (if v then 1 else 0)

-- The size byte and the value in that many bytes.
unfoldable pub scalar_bytes : ℤ → List ℕ
unfolding le_bytes wrap
scalar_bytes v =
    if in_range (2 ^ 7) v
    then le_bytes 1 1 ++ le_bytes 1 (wrap (2 ^ 7) v)
    else if in_range (2 ^ 15) v
    then le_bytes 1 2 ++ le_bytes 2 (wrap (2 ^ 15) v)
    else if in_range (2 ^ 31) v
    then le_bytes 1 4 ++ le_bytes 4 (wrap (2 ^ 31) v)
    else le_bytes 1 8 ++ le_bytes 8 (wrap (2 ^ 63) v)

abbrev pub write_scalar : ℤ → Writer → Writer
write_scalar v w = w ++ scalar_bytes v

-- std::ssize
abbrev pub ssize {ℓ} : {A : Type ℓ} → List A → ℤ
ssize xs = pos (length xs)

abbrev pub write_string : List ℕ → Writer → Writer
write_string s w = w ▹ write_u8 ansi ▹ write_scalar (ssize s) ▹ write_bytes s

-- The code units as UTF-16LE.
unfoldable pub unit_bytes : List ℕ → List ℕ
unfolding le_bytes
unit_bytes [] = []
unit_bytes (u ∷ us) = le_bytes 2 u ++ unit_bytes us

abbrev pub write_wstring : List ℕ → Writer → Writer
write_wstring s w = w ▹ write_u8 unicode ▹ write_scalar (ssize s) ▹ write_bytes (unit_bytes s)

abbrev pub write_text : List ℕ → Writer → Writer
write_text utf8 = write_wstring (utf8_to_utf16 utf8)

abbrev pub write_byte_array : List ℕ → Writer → Writer
write_byte_array bytes w = w ▹ write_scalar (ssize bytes) ▹ write_bytes bytes

abbrev pub write_guid : List ℕ → Writer → Writer
write_guid = write_bytes
