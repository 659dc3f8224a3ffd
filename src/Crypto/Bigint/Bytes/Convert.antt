-- ===== src/Crypto/Bigint/Bytes/Convert.antt =====
-- src/crypto/rsa.hpp: the bytes of a bigint are the little-endian bytes of its number.
use hovorun.Prelude.{
  get_or, All, ℕ, zero, suc, ◌+◌, ◌*◌, ◌/◌, ◌%◌, ◌^◌, ◌≡◌, refl, sym, ap, ◌∙◌, List, [], ◌∷◌, arith,
}
use hovorun.Net.Bytes.{IsByte, le_bytes, of_le}
use hovorun.Crypto.Bigint.Value.{value, IsLimb, value-trim}
use hovorun.Crypto.Bigint.Mod.Limbs.{IsNumber, trim-IsLimb, trim-IsTrimmed}
use hovorun.Crypto.Bigint.Bytes.{limbs_of, from_le_bytes, byte_of, to_le_loop, to_le_bytes}

value-limbs_of : (bytes : List ℕ) → value (limbs_of bytes) ≡ of_le bytes
unfolding limbs_of of_le
value-limbs_of [] = refl
value-limbs_of (a ∷ []) = omega arith
value-limbs_of (a ∷ b ∷ []) = omega arith
value-limbs_of (a ∷ b ∷ c ∷ []) = omega arith
value-limbs_of (a ∷ b ∷ c ∷ d ∷ bytes) = omega (arith, value-limbs_of bytes)

limbs_of-IsLimb : (bytes : List ℕ) → All IsByte bytes → All IsLimb (limbs_of bytes)
unfolding limbs_of
limbs_of-IsLimb [] h = tt
limbs_of-IsLimb (a ∷ []) h = (omega (arith, h.0), tt)
limbs_of-IsLimb (a ∷ b ∷ []) h = (omega (arith, h.0, h.1.0), tt)
limbs_of-IsLimb (a ∷ b ∷ c ∷ []) h = (omega (arith, h.0, h.1.0, h.1.1.0), tt)
limbs_of-IsLimb (a ∷ b ∷ c ∷ d ∷ bytes) h =
    (omega (arith, h.0, h.1.0, h.1.1.0, h.1.1.1.0), limbs_of-IsLimb bytes h.1.1.1.1)

pub from_le_bytes_lem :
    (bytes : List ℕ)
    → All IsByte bytes
    → IsNumber (from_le_bytes bytes) × (value (from_le_bytes bytes) ≡ of_le bytes)
unfolding from_le_bytes
from_le_bytes_lem bytes h =
    let limbs = limbs_of bytes in
    (
      (trim-IsLimb limbs (limbs_of-IsLimb bytes h), trim-IsTrimmed limbs),
      value-trim limbs ∙ value-limbs_of bytes,
    )

-- `v` without its lowest `i` bytes
abbrev above : ℕ → ℕ → ℕ
above v zero = v
above v (suc i) = above (v / 256) i

above-suc : (v i : ℕ) → above v (suc i) ≡ above v i / 256
above-suc v zero = refl
above-suc v (suc i) = above-suc (v / 256) i

above-zero : (i : ℕ) → above 0 i ≡ 0
above-zero zero = refl
above-zero (suc i) = above-zero i

byte_of-zero : (j : ℕ) → byte_of 0 j ≡ 0
byte_of-zero zero = refl
byte_of-zero (suc zero) = refl
byte_of-zero (suc (suc zero)) = refl
byte_of-zero (suc (suc (suc j))) = refl

limb_above : (x v : ℕ) → IsLimb x → (x + 2 ^ 32 * v) / 256 / 256 / 256 / 256 ≡ v
limb_above x v h = omega arith

byte_lem :
    (limbs : List ℕ) (i : ℕ)
    → All IsLimb limbs
    → byte_of (get_or limbs (i / 4) 0) (i % 4) ≡ above (value limbs) i % 256
byte_lem [] i h = rw (above-zero i) (byte_of-zero (i % 4))
byte_lem (x ∷ xs) zero h = omega arith
byte_lem (x ∷ xs) (suc zero) h = omega arith
byte_lem (x ∷ xs) (suc (suc zero)) h = omega arith
byte_lem (x ∷ xs) (suc (suc (suc zero))) h = omega arith
byte_lem (x ∷ xs) (suc (suc (suc (suc i)))) h =
    let next : suc (suc (suc (suc i))) / 4 ≡ suc (i / 4) = omega arith in
    let place : suc (suc (suc (suc i))) % 4 ≡ i % 4 = omega arith in
    rw (next, place)
      (byte_lem xs i h.1 ∙ ap (λ v. above v i % 256) (sym (limb_above x (value xs) h.0)))

to_le_loop_lem :
    (limbs : List ℕ) (i n : ℕ)
    → All IsLimb limbs
    → to_le_loop limbs i n ≡ le_bytes n (above (value limbs) i)
unfolding to_le_loop le_bytes
to_le_loop_lem limbs i zero h = refl
to_le_loop_lem limbs i (suc n) h =
    ap (λ b. b ∷ to_le_loop limbs (suc i) n) (byte_lem limbs i h)
    ∙ ap (◌∷◌ (above (value limbs) i % 256))
        (to_le_loop_lem limbs (suc i) n h ∙ ap (le_bytes n) (above-suc (value limbs) i))

-- For limbs of 32 bits, to_le_bytes gives the lowest bytes of the number.
pub to_le_bytes_lem :
    (limbs : List ℕ) (size : ℕ)
    → All IsLimb limbs
    → to_le_bytes limbs size ≡ le_bytes size (value limbs)
unfolding to_le_bytes
to_le_bytes_lem limbs size h = to_le_loop_lem limbs 0 size h
