-- ===== src/Net/Message/Reader.antt =====
-- src/net/message.hpp, message_reader: a reader is the list of the bytes not read yet, so that
-- `remaining()` is its length and `rest()` the reader itself. An exception is a value of `Error`.
use hovorun.Prelude.{
  ◌≡◌, refl, ◌⊎◌, inl, inr, ℕ, zero, suc, ◌-◌, ◌*◌, ◌^◌, Bool, not, List, [], ◌∷◌, length, take,
  drop, ltb, ◌==◌, ℤ, pos, negsuc, signed, if◌then◌else◌,
}
use hovorun.Net.Bytes.{of_le}
use hovorun.Net.Message.Text.{utf16_to_utf8}
use hovorun.Net.Message.Writer.{unicode}

pub data Error : Type 0 where
  message_underflow bad_scalar_prefix negative_string_length length_error : Error

pub data Result {ℓ} (A : Type ℓ) : Type ℓ where
  ok : A → Result A
  err : Error → Result A

pub Result-cases {ℓ} :
    {A : Type ℓ} (r : Result A) → ((e : Error) × (r ≡ err e)) ⊎ ((a : A) × (r ≡ ok a))
Result-cases (err e) = inl (e, refl)
Result-cases (ok a) = inr (a, refl)

abbrev pub Reads {ℓ} : Type ℓ → Type ℓ
Reads A = List ℕ → Result (A × List ℕ)

module _ {ℓ} {A : Type ℓ} where
  unfoldable pub pure : A → Reads A
  pure a r = ok (a, r)

  unfoldable pub throw : Error → Reads A
  throw e r = err e

module _ {ℓ κ} {A : Type ℓ} {B : Type κ} where
  infixl 5 ◌>>=◌ ◌>>◌
  unfoldable pub ◌>>=◌ : Reads A → (A → Reads B) → Reads B
  ◌>>=◌ m f r = elim (m r) [ ok (a, r') ↦ f a r' | err e ↦ err e ]

  abbrev pub ◌>>◌ : Reads A → Reads B → Reads B
  m >> k = m >>= λ _. k

unfoldable pub take_bytes : ℕ → Reads (List ℕ)
take_bytes count r =
    if ltb (length r) count then err message_underflow else ok (take count r, drop count r)

unfoldable pub read_word : ℕ → Reads ℕ
unfolding ◌>>=◌ pure take_bytes of_le
read_word size = do raw ← take_bytes size; pure (of_le raw)

abbrev pub read_u8 : Reads ℕ
read_u8 = read_word 1

abbrev pub read_u16 : Reads ℕ
read_u16 = read_word 2

abbrev pub read_u32 : Reads ℕ
read_u32 = read_word 4

abbrev pub read_u64 : Reads ℕ
read_u64 = read_word 8

abbrev pub read_f32 : Reads ℕ
read_f32 = read_word 4

abbrev pub read_f64 : Reads ℕ
read_f64 = read_word 8

-- `read<T>` of a signed type of `size` bytes and `2 * h` values
unfoldable pub read_int : ℕ → ℕ → Reads ℤ
unfolding read_word
read_int h size = do x ← read_word size; pure (signed h x)

abbrev pub read_i32 : Reads ℤ
read_i32 = read_int (2 ^ 31) 4

abbrev pub read_i64 : Reads ℤ
read_i64 = read_int (2 ^ 63) 8

unfoldable pub read_bool : Reads Bool
unfolding read_word
read_bool = do v ← read_u8; pure (not (v == 0))

unfoldable pub scalar_body : ℕ → Reads ℤ
unfolding throw read_int
scalar_body size =
    if size == 1
    then read_int (2 ^ 7) 1
    else if size == 2
    then read_int (2 ^ 15) 2
    else if size == 4
    then read_int (2 ^ 31) 4
    else if size == 8
    then read_int (2 ^ 63) 8
    else throw bad_scalar_prefix

unfoldable pub read_scalar : Reads ℤ
unfolding scalar_body
read_scalar = do size ← read_u8; scalar_body size

unfoldable pub length_in : ℤ → Reads ℕ
unfolding throw
length_in (negsuc n) r = throw message_underflow r
length_in (pos n) r = if ltb (length r) n then err message_underflow else ok (n, r)

unfoldable pub read_length : Reads ℕ
unfolding read_scalar length_in
read_length = do length ← read_scalar; length_in length

-- std::u16string throws where the length is above its max_size(); that memory runs out is left aside.
abbrev pub u16string_max_size : ℕ
u16string_max_size = 2 ^ 62 - 2

unfoldable pub of_unit_bytes : List ℕ → List ℕ
unfolding of_le
of_unit_bytes (a ∷ b ∷ s) = of_le (a ∷ b ∷ []) ∷ of_unit_bytes s
of_unit_bytes _ = []

unfoldable pub unicode_body : ℕ → Reads (List ℕ)
unfolding throw take_bytes of_unit_bytes utf16_to_utf8
unicode_body n =
    if ltb u16string_max_size n
    then throw length_error
    else do raw ← take_bytes (2 * n); pure (utf16_to_utf8 (of_unit_bytes raw))

unfoldable pub string_body : ℕ → ℤ → Reads (List ℕ)
unfolding unicode_body
string_body type (negsuc n) = throw negative_string_length
string_body type (pos n) = if type == unicode then unicode_body n else take_bytes n

unfoldable pub read_string : Reads (List ℕ)
unfolding read_scalar string_body
read_string = do type ← read_u8; length ← read_scalar; string_body type length

unfoldable pub read_byte_array : Reads (List ℕ)
unfolding read_length
read_byte_array = do length ← read_length; take_bytes length

abbrev pub read_guid : Reads (List ℕ)
read_guid = take_bytes 16

-- A loop that reads `n` items; an item that is not there ends it.
unfoldable pub read_many {ℓ} : {A : Type ℓ} → ℕ → Reads A → Reads (List A)
unfolding ◌>>=◌ pure
read_many zero read_one = pure []
read_many (suc n) read_one = do item ← read_one; items ← read_many n read_one; pure (item ∷ items)
