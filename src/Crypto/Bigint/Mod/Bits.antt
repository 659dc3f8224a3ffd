-- ===== src/Crypto/Bigint/Mod/Bits.antt =====
-- src/crypto/rsa.hpp: bit and bit_length are those of the number.
use hovorun.Prelude.{
  ltb, ◌==◌, Bool-cases, All, ℕ, zero, suc, ◌+◌, ◌-◌, ◌*◌, ◌/◌, ◌%◌, ◌^◌, ◌<◌, ◌≡◌, refl, sym, ap,
  ◌∙◌, inl, inr, List, [], ◌∷◌, arith,
}
use hovorun.Crypto.Bigint.Value.{value, IsLimb}
use hovorun.Crypto.Bigint.Mod.{shift_right, bits, bit_length, bit}

-- v * 2 ^ k
abbrev scale : ℕ → ℕ → ℕ
scale zero v = v
scale (suc k) v = 2 * scale k v

shift_right-add : (x m n : ℕ) → shift_right x (m + n) ≡ shift_right (shift_right x m) n
unfolding shift_right
shift_right-add x zero n = let same : 0 + n ≡ n = omega arith in rw (same) refl
shift_right-add x (suc m) n =
    let same : suc m + n ≡ suc (m + n) = omega arith in rw (same) (shift_right-add (x / 2) m n)

-- Shifting the lowest `k` bits out leaves the rest.
shift_right-scale : (k x v : ℕ) → x < scale k 1 → shift_right (x + scale k v) k ≡ v
unfolding shift_right
shift_right-scale zero x v h = omega arith
shift_right-scale (suc k) x v h =
    let half : (x + 2 * scale k v) / 2 ≡ x / 2 + scale k v = omega arith in
    rw (half) (shift_right-scale k (x / 2) v (omega arith))

-- A bit below `k` does not see what stands above.
shift_right-low : (n k x v : ℕ) → n < k → shift_right (x + scale k v) n % 2 ≡ shift_right x n % 2
unfolding shift_right
shift_right-low n zero x v h = absurd (omega arith)
shift_right-low zero (suc k) x v h = omega arith
shift_right-low (suc n) (suc k) x v h =
    let half : (x + 2 * scale k v) / 2 ≡ x / 2 + scale k v = omega arith in
    rw (half) (shift_right-low n k (x / 2) v (omega arith))

scale_32 : (v : ℕ) → scale 32 v ≡ 2 ^ 32 * v
scale_32 v = omega arith

shift_right-limb : (x v m : ℕ) → IsLimb x → shift_right (x + 2 ^ 32 * v) (32 + m) ≡ shift_right v m
shift_right-limb x v m h =
    rw (shift_right-add (x + 2 ^ 32 * v) 32 m, sym (scale_32 v))
      (ap (λ y. shift_right y m) (shift_right-scale 32 x v (omega arith)))

shift_right-zero : (n : ℕ) → shift_right 0 n ≡ 0
unfolding shift_right
shift_right-zero zero = refl
shift_right-zero (suc n) = shift_right-zero n

pub bit_lem :
    (limbs : List ℕ) (n : ℕ) → All IsLimb limbs → bit limbs n ≡ shift_right (value limbs) n % 2
unfolding bit
bit_lem [] n h = rw (shift_right-zero n, shift_right-zero (n % 32)) refl
bit_lem (x ∷ xs) n h = elim (Bool-cases (ltb n 32)) [
  | inl q ↦
      let here : n / 32 ≡ 0 = ground arith in
      let low_bits : n % 32 ≡ n = ground arith in
      let low = shift_right-low n 32 x (value xs) (ground arith) in
      rw (here, low_bits) (sym low ∙ ap (λ y. shift_right (x + y) n % 2) (scale_32 (value xs)))
  | inr q ↦
      let m = n - 32 in
      let split : n ≡ 32 + m = ground arith in
      let next : n / 32 ≡ suc (m / 32) = ground arith in
      let same : n % 32 ≡ m % 32 = ground arith in
      rw (next, same)
        (bit_lem xs m h.1
          ∙ ap (λ y. y % 2)
              (sym (shift_right-limb x (value xs) m h.0)
                ∙ ap (λ y. shift_right (x + 2 ^ 32 * value xs) y) (sym split)))
]

bits_lem : (n x : ℕ) → x < scale n 1 → shift_right x (bits n x) ≡ 0
unfolding shift_right bits
bits_lem zero x h = omega arith
bits_lem (suc n) x h = elim (Bool-cases (x == 0)) [
  | inl q ↦ rw (q, bits) (ground arith)
  | inr q ↦ rw (q, bits) (bits_lem n (x / 2) (omega arith))
]

-- All bits of the number are below bit_length.
pub bit_length_lem :
    (limbs : List ℕ) → All IsLimb limbs → shift_right (value limbs) (bit_length limbs) ≡ 0
unfolding bit_length
bit_length_lem [] h = shift_right-zero 0
bit_length_lem (x ∷ []) h =
    let same : x + 2 ^ 32 * 0 ≡ x = omega arith in rw (same) (bits_lem 32 x (omega (arith, h.0)))
bit_length_lem (x ∷ y ∷ ys) h =
    shift_right-limb x (value (y ∷ ys)) (bit_length (y ∷ ys)) h.0 ∙ bit_length_lem (y ∷ ys) h.1
