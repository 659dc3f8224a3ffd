-- ===== src/Crypto/Rsa/Key.antt =====
-- src/crypto/rsa.hpp: the key that parse_publickeyblob accepts.
use hovorun.Prelude.{
  ltb, ◌==◌, Bool-cases, length, take, drop, get_or, length-drop, All, ℕ, zero, suc, ◌+◌, ◌*◌, ◌/◌,
  ◌%◌, ◌^◌, ◌≤◌, ◌<◌, ◌≡◌, refl, ap, ◌≢◌, ◌⊎◌, inl, inr, not, ◌||◌, List, [], ◌∷◌, arith,
}
use hovorun.Net.Bytes.{IsByte, of_le}
use hovorun.Crypto.Bigint.Value.{value, IsLimb}
use hovorun.Crypto.Bigint.Mod.Limbs.{IsNumber}
use hovorun.Crypto.Bigint.Bytes.Convert.{from_le_bytes_lem}
use hovorun.Crypto.Bigint.Pow.{from_u32}
use hovorun.Crypto.Rsa.{
  RsaPublicKey, publickeyblob, rsa1_magic, read_le32, Parsed, key_at, parse_publickeyblob,
  not_a_publickeyblob, missing_rsa1_magic, bad_modulus_length, expected, unexpected,
}
use mathlib.Core.Path.{subst}
use native.Mathlib.Nat.{pow-suc}

All-take : (n : ℕ) (xs : List ℕ) → All IsByte xs → All IsByte (take n xs)
All-take zero xs h = tt
All-take (suc n) [] h = tt
All-take (suc n) (x ∷ xs) h = (h.0, All-take n xs h.1)

All-drop : (n : ℕ) (xs : List ℕ) → All IsByte xs → All IsByte (drop n xs)
All-drop zero xs h = h
All-drop (suc n) [] h = tt
All-drop (suc n) (x ∷ xs) h = All-drop n xs h.1

length-take : (n : ℕ) (xs : List ℕ) → n ≤ length xs → length (take n xs) ≡ n
length-take zero xs h = refl
length-take (suc n) [] h = absurd (omega arith)
length-take (suc n) (x ∷ xs) h = ap suc (length-take n xs (omega arith))

of_le-lt : (bytes : List ℕ) → All IsByte bytes → of_le bytes < 256 ^ length bytes
unfolding of_le
of_le-lt [] h = omega arith
of_le-lt (b ∷ bytes) h =
    let more = pow-suc 256 (length bytes) in omega (arith, h.0, of_le-lt bytes h.1)

get_or-IsByte : (bytes : List ℕ) (i : ℕ) → All IsByte bytes → IsByte (get_or bytes i 0)
get_or-IsByte [] i h = omega arith
get_or-IsByte (b ∷ bytes) zero h = h.0
get_or-IsByte (b ∷ bytes) (suc i) h = get_or-IsByte bytes i h.1

read_le32-IsLimb : (blob : List ℕ) (p : ℕ) → All IsByte blob → IsLimb (read_le32 blob p)
unfolding read_le32
read_le32-IsLimb blob p h =
    let a = get_or-IsByte blob p h in
    let b = get_or-IsByte blob (p + 1) h in
    let c = get_or-IsByte blob (p + 2) h in let d = get_or-IsByte blob (p + 3) h in omega arith

from_u32_lem : (v : ℕ) → IsLimb v → All IsLimb (from_u32 v) × (value (from_u32 v) ≡ v)
unfolding from_u32
from_u32_lem v h = elim (Bool-cases (v == 0)) [
  | inl q ↦ rw (q) (tt, ground arith)
  | inr q ↦ rw (q) ((h, tt), omega arith)
]

-- What a key is for the encryption: numbers in limbs of 32 bits, and a modulus in its bytes.
pub record IsKey (key : RsaPublicKey) : Type 0 where
  pub modulus_number : IsNumber key.modulus
  pub modulus_small : value key.modulus < 256 ^ key.modulus_bytes
  pub exponent_limbs : All IsLimb key.exponent

-- The blob has room for its header, which says that it is a public key.
abbrev pub IsKeyBlob : List ℕ → Type 0
IsKeyBlob blob = (20 ≤ length blob) × (get_or blob 0 0 ≡ publickeyblob)

-- A key that stands for the numbers in a whole blob.
pub record ReadsKey (blob : List ℕ) (key : RsaPublicKey) : Type 0 where
  pub key_blob : IsKeyBlob blob
  pub magic : read_le32 blob 8 ≡ rsa1_magic
  pub some_bytes : 0 < key.modulus_bytes
  pub whole : 20 + key.modulus_bytes ≤ length blob
  pub is_key : IsKey key
  pub modulus_value : value key.modulus ≡ of_le (take key.modulus_bytes (drop 20 blob))
  pub exponent_value : value key.exponent ≡ read_le32 blob 16
  pub bits : read_le32 blob 12 ≡ 8 * key.modulus_bytes

-- What a result of parse_publickeyblob says of the blob.
unfoldable pub Explains : List ℕ → Parsed → Type 0
Explains blob (unexpected not_a_publickeyblob) =
    (length blob < 20) ⊎ (get_or blob 0 0 ≢ publickeyblob)
Explains blob (unexpected missing_rsa1_magic) = IsKeyBlob blob × (read_le32 blob 8 ≢ rsa1_magic)
Explains blob (unexpected bad_modulus_length) =
    (IsKeyBlob blob × (read_le32 blob 8 ≡ rsa1_magic))
    × ((read_le32 blob 12 ≡ 0)
        ⊎ (read_le32 blob 12 % 8 ≢ 0)
        ⊎ (length blob < 20 + read_le32 blob 12 / 8))
Explains blob (expected key) = ReadsKey blob key

key_at-ReadsKey :
    (blob : List ℕ) (n : ℕ)
    → All IsByte blob
    → IsKeyBlob blob
    → read_le32 blob 8 ≡ rsa1_magic
    → 0 < n
    → 20 + n ≤ length blob
    → read_le32 blob 12 ≡ 8 * n
    → ReadsKey blob (key_at blob n)
key_at-ReadsKey blob n h t m z fits b =
    let body = take n (drop 20 blob) in
    let body_bytes = All-take n (drop 20 blob) (All-drop 20 blob h) in
    let left = length-drop 20 blob in
    let size : length body ≡ n = length-take n (drop 20 blob) (omega arith) in
    let modulus = from_le_bytes_lem body body_bytes in
    let exponent = from_u32_lem (read_le32 blob 16) (read_le32-IsLimb blob 16 h) in
    record {
      key_blob = t;
      magic = m;
      some_bytes = z;
      whole = fits;
      is_key = record {
        modulus_number = modulus.0;
        modulus_small =
            rw (modulus.1) (subst (λ m. of_le body < 256 ^ m) size (of_le-lt body body_bytes));
        exponent_limbs = exponent.0;
      };
      modulus_value = modulus.1;
      exponent_value = exponent.1;
      bits = b;
    }

-- Every result of parse_publickeyblob says what the blob of bytes is. The first error: it is short, or
-- of another type. The second: it is neither, but the magic number is wrong. The third: these are
-- right, but the length of the modulus is zero, no whole number of bytes, or more than is there. A key:
-- all of these are right, and it has the modulus and the exponent that stand in the blob, as numbers
-- in limbs of 32 bits.
pub parse_publickeyblob-Explains :
    (blob : List ℕ) → All IsByte blob → Explains blob (parse_publickeyblob blob)
unfolding parse_publickeyblob Explains
parse_publickeyblob-Explains blob h =
    let bitlen = read_le32 blob 12 in
    elim (Bool-cases (ltb (length blob) 20 || not (get_or blob 0 0 == publickeyblob))) [
      | inl q ↦ rw (q) (ground arith)
      | inr q ↦
          let type : IsKeyBlob blob = (ground arith, ground arith) in
          elim (Bool-cases (read_le32 blob 8 == rsa1_magic)) [
            | inr p ↦ rw (q, p) (type, ground arith)
            | inl p ↦
                let magic : read_le32 blob 8 ≡ rsa1_magic = ground arith in
                elim (Bool-cases
                  (bitlen == 0 || not (bitlen % 8 == 0) || ltb (length blob) (20 + bitlen / 8))) [
                    | inl r ↦ rw (q, p, r) ((type, magic), ground arith)
                    | inr r ↦
                        rw (q, p, r)
                          (key_at-ReadsKey blob (bitlen / 8) h type magic (ground arith)
                            (ground arith) (ground arith))
                  ]
          ]
    ]
