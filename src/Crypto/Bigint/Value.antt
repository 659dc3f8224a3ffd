-- ===== src/Crypto/Bigint/Value.antt =====
-- src/crypto/rsa.hpp: what the steps on the limbs do to the number.
use hovorun.Prelude.{All, ℕ, ◌+◌, ◌*◌, ◌/◌, ◌^◌, ◌≤◌, ◌<◌, ◌≡◌, refl, ◌∙◌, List, [], ◌∷◌, arith}
use hovorun.Crypto.Bigint.{trim, shl1_loop, shl1, sub_loop, sub, head_or_zero, rest_of}

-- The number that the limbs stand for.
abbrev pub value : List ℕ → ℕ
value [] = 0
value (limb ∷ limbs) = limb + 2 ^ 32 * value limbs

abbrev pub IsLimb : ℕ → Type 0
IsLimb limb = limb < 2 ^ 32

pub value-trim : (limbs : List ℕ) → value (trim limbs) ≡ value limbs
unfolding trim
value-trim [] = refl
value-trim (limb ∷ limbs) = ground (arith, value-trim limbs)

pub value-shl1_loop :
    (carry : ℕ) (limbs : List ℕ)
    → All IsLimb limbs
    → value (shl1_loop carry limbs) ≡ 2 * value limbs + carry
unfolding shl1_loop
value-shl1_loop carry [] h = ground arith
value-shl1_loop carry (limb ∷ limbs) h = omega (arith, value-shl1_loop (limb / 2 ^ 31) limbs h.1)

-- Shifting by one bit doubles the number, whose limbs have 32 bits.
pub value-shl1 : (limbs : List ℕ) → All IsLimb limbs → value (shl1 limbs) ≡ 2 * value limbs
unfolding shl1
value-shl1 limbs h = value-shl1_loop 0 limbs h ∙ omega arith

value-rest : (bs : List ℕ) → value bs ≡ head_or_zero bs + 2 ^ 32 * value (rest_of bs)
value-rest [] = omega arith
value-rest (b ∷ bs) = refl

pub IsLimb-head : (bs : List ℕ) → All IsLimb bs → IsLimb (head_or_zero bs)
IsLimb-head [] h = omega arith
IsLimb-head (b ∷ bs) h = h.0

pub IsLimb-rest : (bs : List ℕ) → All IsLimb bs → All IsLimb (rest_of bs)
IsLimb-rest [] h = tt
IsLimb-rest (b ∷ bs) h = h.1

value-sub_loop :
    (borrow : ℕ) (limbs bs : List ℕ)
    → All IsLimb limbs
    → All IsLimb bs
    → borrow ≤ 1
    → value bs + borrow ≤ value limbs
    → value (sub_loop borrow limbs bs) + (value bs + borrow) ≡ value limbs
unfolding sub_loop
value-sub_loop borrow [] bs h g c e = omega arith
value-sub_loop borrow (limb ∷ limbs) bs h g c e =
    let split = value-rest bs in
    let small = IsLimb-head bs g in
    let small' = h.0 in
    let below = value-sub_loop 1 limbs (rest_of bs) h.1 (IsLimb-rest bs g) (omega arith) in
    let above = value-sub_loop 0 limbs (rest_of bs) h.1 (IsLimb-rest bs g) (omega arith) in
    ground arith

-- Taking off a number that is not larger subtracts it; the limbs have 32 bits.
pub value-sub :
    (limbs bs : List ℕ)
    → All IsLimb limbs
    → All IsLimb bs
    → value bs ≤ value limbs
    → value (sub limbs bs) + value bs ≡ value limbs
unfolding sub
value-sub limbs bs h g e =
    let loop = value-sub_loop 0 limbs bs h g (omega arith) (omega arith) in
    let trimmed = value-trim (sub_loop 0 limbs bs) in omega arith
