-- ===== src/Crypto/Rsa/Tests.antt =====
-- src/crypto/rsa.hpp: a small key, and the theorems at it.
use hovorun.Prelude.{replicate, ℕ, ◌≡◌, refl, List, [], ◌∷◌, arith}
use hovorun.Crypto.Bigint.{trim}
use hovorun.Crypto.Bigint.Bytes.{limbs_of, from_le_bytes}
use hovorun.Crypto.Rsa.{
  RsaPublicKey, read_le32, key_at, parse_publickeyblob, missing_rsa1_magic, expected, unexpected,
}
use hovorun.Crypto.Rsa.Key.{Explains, parse_publickeyblob-Explains}
use hovorun.Crypto.Rsa.SessionKey.{Recovers, parse-make-Recovers}

-- A key of 96 bits with the exponent 3.
abbrev some_blob : List ℕ
some_blob =
    6
    ∷ 2
    ∷ 0
    ∷ 0
    ∷ 0
    ∷ 164
    ∷ 0
    ∷ 0
    ∷ 0x52
    ∷ 0x53
    ∷ 0x41
    ∷ 0x31
    ∷ 96
    ∷ 0
    ∷ 0
    ∷ 0
    ∷ 3
    ∷ 0
    ∷ 0
    ∷ 0
    ∷ replicate 12 201

abbrev some_key : RsaPublicKey
some_key = key_at some_blob 12

some_blob-parsed : parse_publickeyblob some_blob ≡ expected some_key
unfolding parse_publickeyblob read_le32
some_blob-parsed = refl

short_blob : parse_publickeyblob (6 ∷ replicate 19 0) ≡ unexpected missing_rsa1_magic
unfolding parse_publickeyblob read_le32
short_blob = refl

parse_publickeyblob-Explains_example : Explains some_blob (parse_publickeyblob some_blob)
parse_publickeyblob-Explains_example = parse_publickeyblob-Explains some_blob (ground arith)

parse-make-Recovers_example : Recovers some_blob (5 ∷ []) (λ i. 1) some_key
unfolding from_le_bytes limbs_of trim
parse-make-Recovers_example =
    parse-make-Recovers some_blob (5 ∷ []) (λ i. 1) some_key (ground arith) (omega arith, tt)
      some_blob-parsed (omega arith) (omega arith)
