-- ===== src/Net/Tests.antt =====
-- src/net: messages and frames on small inputs, and the theorems at them.
use hovorun.Prelude.{
  wrap, negsuc, ℕ, ◌≡◌, refl, inl, inr, Bool, true, false, ◌||◌, List, [], ◌∷◌, ◌++◌, map, flatten,
  arith,
}
use hovorun.Net.Bytes.{le_bytes}
use hovorun.Net.Message.Writer.{scalar_bytes, write_scalar, write_text}
use hovorun.Net.Message.Reader.{read_scalar, read_string, ok}
use hovorun.Net.Message.Text.{
  lead_byte, continuation, utf16_units, utf8_loop, utf8_to_utf16, utf8_bytes,
}
use hovorun.Net.Message.Text.Unicode.{encode_utf8}
use hovorun.Net.Message.RoundTrip.{IsText, read_scalar-write_scalar, read_string-write_text}
use hovorun.Net.Framing.{make_frame}
use hovorun.Net.Framing.Drain.{Sink, read_loop}
use hovorun.Net.Framing.Drain.Chunks.{take_all, read_loop-flatten, read_loop-make_frame}

scalar_bytes_test : write_scalar (negsuc 199) [] ≡ 2 ∷ 0x38 ∷ 0xFF ∷ []
unfolding scalar_bytes le_bytes wrap
scalar_bytes_test = refl

frame_test : make_frame (1 ∷ 2 ∷ []) ≡ 0x13 ∷ 0x57 ∷ 1 ∷ 2 ∷ 1 ∷ 2 ∷ []
unfolding make_frame scalar_bytes le_bytes wrap
frame_test = refl

surrogate_test : utf8_to_utf16 (0xF0 ∷ 0x9F ∷ 0x98 ∷ 0x80 ∷ []) ≡ 0xD83D ∷ 0xDE00 ∷ []
unfolding utf8_to_utf16 utf8_loop continuation utf16_units
surrogate_test = refl

-- A letter, a Hangul syllable and an emoji.
abbrev some_text : List ℕ
some_text = encode_utf8 (0x41 ∷ 0xD55C ∷ 0x1F600 ∷ [])

some_text_units : utf8_to_utf16 some_text ≡ 0x41 ∷ 0xD55C ∷ 0xD83D ∷ 0xDE00 ∷ []
unfolding utf8_to_utf16 utf8_loop continuation utf16_units utf8_bytes lead_byte
some_text_units = refl

some_text-IsText : IsText some_text
some_text-IsText = record {
  points = 0x41 ∷ 0xD55C ∷ 0x1F600 ∷ [];
  scalar = (inl (omega arith), (inl (omega arith), (inr (omega arith, omega arith), tt)));
  encoded = refl;
  fits = rw some_text_units (omega arith);
}

read_scalar-write_scalar_example :
    read_scalar (write_scalar (negsuc 199) [] ++ 5 ∷ []) ≡ ok (negsuc 199, 5 ∷ [])
read_scalar-write_scalar_example = read_scalar-write_scalar (negsuc 199) (5 ∷ []) (omega arith)

read_string-write_text_example :
    read_string (write_text some_text [] ++ 5 ∷ []) ≡ ok (some_text, 5 ∷ [])
read_string-write_text_example = read_string-write_text some_text (5 ∷ []) some_text-IsText

-- A peer that keeps the payloads it got and is closed by an empty one.
abbrev Log : Type 0
Log = List (List ℕ) × Bool

abbrev is_nil : List ℕ → Bool
is_nil [] = true
is_nil _ = false

abbrev log : Sink Log
log = record {
  process = λ p s. (s.0 ++ p ∷ [], s.1 || is_nil p);
  close = λ s. (s.0, true);
  is_closed = λ s. s.1;
}

abbrev two_payloads : List (List ℕ)
two_payloads = (1 ∷ 2 ∷ []) ∷ (3 ∷ []) ∷ []

abbrev two_reads : List (List ℕ)
two_reads = (0x13 ∷ 0x57 ∷ 1 ∷ []) ∷ (2 ∷ 1 ∷ 2 ∷ 0x13 ∷ 0x57 ∷ 1 ∷ 1 ∷ 3 ∷ []) ∷ []

two_reads_frames : flatten two_reads ≡ flatten (map make_frame two_payloads)
unfolding flatten make_frame scalar_bytes le_bytes wrap
two_reads_frames = refl

read_loop-make_frame_example :
    (read_loop log (([], false), []) two_reads).0 ≡ take_all log ([], false) two_payloads
read_loop-make_frame_example =
    read_loop-make_frame log (λ s. refl) ([], false) two_payloads two_reads refl
      (omega arith, (omega arith, tt)) two_reads_frames

read_loop-flatten_example :
    (read_loop log (([], false), []) two_reads).0
    ≡ (read_loop log (([], false), []) (flatten two_reads ∷ [])).0
read_loop-flatten_example = read_loop-flatten log (λ s. refl) ([], false) two_reads refl
