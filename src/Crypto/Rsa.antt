-- ===== src/Crypto/Rsa.antt =====
-- src/crypto/rsa.hpp: the blobs of the public key and of the session key, and the encryption. The
-- random numbers are what nonzero(rng) draws, one after the other.
pub mod Key
pub mod SessionKey
mod Tests
use hovorun.Prelude.{
  ltb, ◌==◌, if◌then◌else◌, length, take, drop, get_or, ℕ, zero, suc, ◌+◌, ◌-◌, ◌*◌, ◌/◌, ◌%◌, ◌^◌,
  not, ◌||◌, Option, none, some, List, [], ◌∷◌, ◌++◌,
}
use hovorun.Net.Bytes.{le_bytes}
use hovorun.Crypto.Bigint.Bytes.{from_le_bytes, from_be_bytes, to_le_bytes}
use hovorun.Crypto.Bigint.Pow.{from_u32, mod_pow}
use mathlib.Core.List.{reverse}

pub record RsaPublicKey : Type 0 where
  pub modulus : List ℕ
  pub exponent : List ℕ
  pub modulus_bytes : ℕ

abbrev pub publickeyblob : ℕ
publickeyblob = 0x06

abbrev pub simpleblob : ℕ
simpleblob = 0x01

abbrev pub cur_blob_version : ℕ
cur_blob_version = 0x02

abbrev pub calg_rsa_keyx : ℕ
calg_rsa_keyx = 0x0000A400

abbrev pub calg_rc4 : ℕ
calg_rc4 = 0x00006801

abbrev pub rsa1_magic : ℕ
rsa1_magic = 0x31415352

-- The word at `p` in the blob; the callers have looked at its size.
unfoldable pub read_le32 : List ℕ → ℕ → ℕ
read_le32 blob p =
    get_or blob p 0
    + get_or blob (p + 1) 0 * 2 ^ 8
    + get_or blob (p + 2) 0 * 2 ^ 16
    + get_or blob (p + 3) 0 * 2 ^ 24

pub data BlobError : Type 0 where
  not_a_publickeyblob : BlobError
  missing_rsa1_magic : BlobError
  bad_modulus_length : BlobError

-- std::expected
pub data Parsed : Type 0 where
  expected : RsaPublicKey → Parsed
  unexpected : BlobError → Parsed

abbrev pub key_at : List ℕ → ℕ → RsaPublicKey
key_at blob modulus_bytes = record {
  modulus = from_le_bytes (take modulus_bytes (drop 20 blob));
  exponent = from_u32 (read_le32 blob 16);
  modulus_bytes = modulus_bytes;
}

unfoldable pub parse_publickeyblob : List ℕ → Parsed
unfolding read_le32 from_le_bytes from_u32
parse_publickeyblob blob =
    if ltb (length blob) 20 || not (get_or blob 0 0 == publickeyblob)
    then unexpected not_a_publickeyblob
    else if not (read_le32 blob 8 == rsa1_magic)
    then unexpected missing_rsa1_magic
    else let bitlen = read_le32 blob 12 in
      let modulus_bytes = bitlen / 8 in
      if bitlen == 0 || not (bitlen % 8 == 0) || ltb (length blob) (20 + modulus_bytes)
      then unexpected bad_modulus_length
      else expected (key_at blob modulus_bytes)

-- The padding from its i-th byte on.
abbrev pub padding : (ℕ → ℕ) → ℕ → ℕ → List ℕ
padding nonzero i zero = []
padding nonzero i (suc n) = nonzero i % 256 ∷ padding nonzero (suc i) n

-- em: the message behind its padding.
unfoldable pub encoded_message : ℕ → List ℕ → (ℕ → ℕ) → List ℕ
encoded_message k message nonzero =
    0x00 ∷ 0x02 ∷ (padding nonzero 0 (k - 3 - length message) ++ 0x00 ∷ message)

-- Nothing where the source throws.
unfoldable pub rsa_pkcs1_encrypt : RsaPublicKey → List ℕ → (ℕ → ℕ) → Option (List ℕ)
unfolding encoded_message mod_pow from_be_bytes to_le_bytes
rsa_pkcs1_encrypt key message nonzero =
    let k = key.modulus_bytes in
    if ltb k (length message + 11)
    then none
    else let c =
        mod_pow (from_be_bytes (encoded_message k message nonzero)) key.exponent key.modulus in
      some (reverse (to_le_bytes c k))

abbrev pub blob_header : List ℕ
blob_header =
    simpleblob ∷ cur_blob_version ∷ 0 ∷ 0 ∷ (le_bytes 4 calg_rc4 ++ le_bytes 4 calg_rsa_keyx)

unfoldable pub make_rc4_simpleblob : RsaPublicKey → List ℕ → (ℕ → ℕ) → Option (List ℕ)
unfolding rsa_pkcs1_encrypt
make_rc4_simpleblob key rc4_key nonzero = elim (rsa_pkcs1_encrypt key rc4_key nonzero) [
  | none ↦ none
  | some be ↦ some (blob_header ++ reverse be)
]
