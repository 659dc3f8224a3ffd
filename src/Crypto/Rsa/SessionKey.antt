-- ===== src/Crypto/Rsa/SessionKey.antt =====
-- src/crypto/rsa.hpp: the session key that the client gets.
use hovorun.Prelude.{
  ltb, Bool-cases, length, All, All-append, ℕ, zero, suc, ◌+◌, ◌-◌, ◌*◌, ◌%◌, ◌^◌, ◌≤◌, ◌<◌, ◌≡◌,
  sym, ap, ◌∙◌, inl, inr, some, List, [], ◌∷◌, ◌++◌, arith,
}
use hovorun.Net.Bytes.{IsByte, le_bytes, of_le, length-le_bytes, of_le-le_bytes}
use hovorun.Crypto.Bigint.Value.{value}
use hovorun.Crypto.Bigint.Bytes.{from_be_bytes, to_le_bytes}
use hovorun.Crypto.Bigint.Bytes.Convert.{from_le_bytes_lem, to_le_bytes_lem}
use hovorun.Crypto.Bigint.Pow.{mod_pow}
use hovorun.Crypto.Bigint.Pow.Power.{mod_pow_lem}
use hovorun.Crypto.Rsa.{
  RsaPublicKey, read_le32, parse_publickeyblob, padding, encoded_message, rsa_pkcs1_encrypt,
  blob_header, make_rc4_simpleblob, expected,
}
use hovorun.Crypto.Rsa.Key.{IsKey, ReadsKey, Explains, parse_publickeyblob-Explains}
use mathlib.Core.List.{reverse, reverse-cons, reverse-reverse}
use mathlib.Core.Path.{subst}
use native.Mathlib.Nat.{mod-lt}

padding-IsByte : (nonzero : ℕ → ℕ) (i n : ℕ) → All IsByte (padding nonzero i n)
padding-IsByte nonzero i zero = tt
padding-IsByte nonzero i (suc n) = (omega arith, padding-IsByte nonzero (suc i) n)

encoded_message-IsByte :
    (k : ℕ) (message : List ℕ) (nonzero : ℕ → ℕ)
    → All IsByte message
    → All IsByte (encoded_message k message nonzero)
unfolding encoded_message
encoded_message-IsByte k message nonzero h =
    let n = k - 3 - length message in
    (
      omega arith,
      (
        omega arith,
        All-append IsByte (padding nonzero 0 n) (0 ∷ message) (padding-IsByte nonzero 0 n)
            (omega arith, h),
      ),
    )

reverse-IsByte : (bytes : List ℕ) → All IsByte bytes → All IsByte (reverse bytes)
reverse-IsByte [] h = tt
reverse-IsByte (b ∷ bytes) h =
    subst (All IsByte) (sym (reverse-cons b bytes))
      (All-append IsByte (reverse bytes) (b ∷ []) (reverse-IsByte bytes h.1) (h.0, tt))

-- The number of bytes with the most significant first.
abbrev pub of_be : List ℕ → ℕ
of_be bytes = of_le (reverse bytes)

-- The number that the encryption gives, below the modulus.
abbrev pub cipher : RsaPublicKey → List ℕ → (ℕ → ℕ) → ℕ
cipher key message nonzero =
    of_be (encoded_message key.modulus_bytes message nonzero) ^ value key.exponent
    % value key.modulus

abbrev power : RsaPublicKey → List ℕ → (ℕ → ℕ) → List ℕ
power key message nonzero =
    mod_pow (from_be_bytes (encoded_message key.modulus_bytes message nonzero)) key.exponent
      key.modulus

power_lem :
    (key : RsaPublicKey) (message : List ℕ) (nonzero : ℕ → ℕ)
    → IsKey key
    → 1 < value key.modulus
    → All IsByte message
    → to_le_bytes (power key message nonzero) key.modulus_bytes
      ≡ le_bytes key.modulus_bytes (cipher key message nonzero)
unfolding from_be_bytes
power_lem key message nonzero h p b =
    let em = encoded_message key.modulus_bytes message nonzero in
    let base =
      from_le_bytes_lem (reverse em)
        (reverse-IsByte em (encoded_message-IsByte key.modulus_bytes message nonzero b)) in
    let result =
      mod_pow_lem (from_be_bytes em) key.exponent key.modulus base.0.0 h.exponent_limbs
        h.modulus_number p in
    to_le_bytes_lem (power key message nonzero) key.modulus_bytes result.0.0
    ∙ ap (le_bytes key.modulus_bytes)
        (result.1 ∙ ap (λ v. v ^ value key.exponent % value key.modulus) base.1)

-- The blob for a key of the client and a message that fits is the header and then, as many bytes as
-- the modulus has, the lowest first, the padded message to the power of the exponent modulo the modulus.
pub make_rc4_simpleblob_lem :
    (key : RsaPublicKey) (rc4_key : List ℕ) (nonzero : ℕ → ℕ)
    → IsKey key
    → 1 < value key.modulus
    → All IsByte rc4_key
    → length rc4_key + 11 ≤ key.modulus_bytes
    → make_rc4_simpleblob key rc4_key nonzero
      ≡ some (blob_header ++ le_bytes key.modulus_bytes (cipher key rc4_key nonzero))
unfolding make_rc4_simpleblob rsa_pkcs1_encrypt
make_rc4_simpleblob_lem key rc4_key nonzero h p b fits =
    let le = to_le_bytes (power key rc4_key nonzero) key.modulus_bytes in
    elim (Bool-cases (ltb key.modulus_bytes (length rc4_key + 11))) [
      | inl q ↦ absurd (ground arith)
      | inr q ↦
          rw (make_rc4_simpleblob, rsa_pkcs1_encrypt, q)
            (ap (λ l. some (blob_header ++ l))
              (reverse-reverse le ∙ power_lem key rc4_key nonzero h p b))
    ]

-- What the client that sent `blob` can do with the answer.
pub record Recovers (blob rc4_key : List ℕ) (nonzero : ℕ → ℕ) (key : RsaPublicKey) : Type 0 where
  pub body : List ℕ
  pub answer : make_rc4_simpleblob key rc4_key nonzero ≡ some (blob_header ++ body)
  pub size : 8 * length body ≡ read_le32 blob 12
  pub number :
      of_le body
      ≡ of_be (encoded_message key.modulus_bytes rc4_key nonzero) ^ read_le32 blob 16
        % value key.modulus

-- A key that is read from a blob of bytes, with a modulus of at least 2 and room for the message:
-- make_rc4_simpleblob does not throw, and behind the header stands, in the number of bits that the
-- blob asks for, the padded message to the power of the exponent of the blob modulo the modulus.
pub parse-make-Recovers :
    (blob rc4_key : List ℕ) (nonzero : ℕ → ℕ) (key : RsaPublicKey)
    → All IsByte blob
    → All IsByte rc4_key
    → parse_publickeyblob blob ≡ expected key
    → 1 < value key.modulus
    → length rc4_key + 11 ≤ key.modulus_bytes
    → Recovers blob rc4_key nonzero key
unfolding Explains
parse-make-Recovers blob rc4_key nonzero key h b e p fits =
    let reads : ReadsKey blob key = subst (Explains blob) e (parse_publickeyblob-Explains blob h) in
    let c = cipher key rc4_key nonzero in
    let positive : 0 < value key.modulus = omega arith in
    let below : c < value key.modulus =
      mod-lt (of_be (encoded_message key.modulus_bytes rc4_key nonzero) ^ value key.exponent)
        positive in
    let small = reads.is_key.modulus_small in
    let c_small : c < 256 ^ key.modulus_bytes = omega arith in
    let body = le_bytes key.modulus_bytes c in
    let body_size = length-le_bytes key.modulus_bytes c in
    record {
      body = body;
      answer = make_rc4_simpleblob_lem key rc4_key nonzero reads.is_key p b fits;
      size = ap (λ n. 8 * n) body_size ∙ sym reads.bits;
      number =
          of_le-le_bytes key.modulus_bytes c c_small
          ∙ ap
              (λ x.
                of_be (encoded_message key.modulus_bytes rc4_key nonzero) ^ x % value key.modulus)
              reads.exponent_value;
    }
