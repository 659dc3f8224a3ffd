-- ===== src/Crypto/Bigint/Mod/Limbs.antt =====
-- src/crypto/rsa.hpp: the steps of bigint::mod keep limbs of 32 bits, without a zero at the top.
use hovorun.Prelude.{
  ltb, ◌==◌, Bool-cases, All, ℕ, ◌+◌, ◌*◌, ◌/◌, ◌^◌, ◌≤◌, ◌<◌, ◌≡◌, inl, inr, false, ◌&&◌, List, [],
  ◌∷◌, arith,
}
use hovorun.Crypto.Bigint.{trim, shl1_loop, shl1, sub_loop, sub, is_nil, head_or_zero, rest_of}
use hovorun.Crypto.Bigint.Value.{value, IsLimb, value-shl1_loop, IsLimb-rest}
use hovorun.Crypto.Bigint.Mod.{or_one, with_bit}

-- No zero limb at the top: from every limb on, the limbs stand for a positive number.
abbrev pub IsTrimmed : List ℕ → Type 0
IsTrimmed [] = Unit
IsTrimmed (limb ∷ limbs) = (0 < value (limb ∷ limbs)) × IsTrimmed limbs

-- What the limbs of a bigint are.
abbrev pub IsNumber : List ℕ → Type 0
IsNumber limbs = All IsLimb limbs × IsTrimmed limbs

pub trim-IsLimb : (limbs : List ℕ) → All IsLimb limbs → All IsLimb (trim limbs)
unfolding trim
trim-IsLimb [] h = tt
trim-IsLimb (limb ∷ limbs) h = elim (Bool-cases (limb == 0 && is_nil (trim limbs))) [
  | inl q ↦ rw (q) tt
  | inr q ↦ rw (q) (h.0, trim-IsLimb limbs h.1)
]

more-positive :
    (limb : ℕ) (rest : List ℕ)
    → (limb == 0 && is_nil rest) ≡ false
    → IsTrimmed rest
    → 0 < limb + 2 ^ 32 * value rest
more-positive limb [] q h = ground arith
more-positive limb (x ∷ xs) q h = omega (arith, h.0)

pub trim-IsTrimmed : (limbs : List ℕ) → IsTrimmed (trim limbs)
unfolding trim
trim-IsTrimmed [] = tt
trim-IsTrimmed (limb ∷ limbs) = elim (Bool-cases (limb == 0 && is_nil (trim limbs))) [
  | inl q ↦ rw (q) tt
  | inr q ↦ rw (q) (more-positive limb (trim limbs) q (trim-IsTrimmed limbs), trim-IsTrimmed limbs)
]

shl1_loop-IsLimb :
    (carry : ℕ) (limbs : List ℕ) → carry ≤ 1 → All IsLimb limbs → All IsLimb (shl1_loop carry limbs)
unfolding shl1_loop
shl1_loop-IsLimb carry [] c h = elim (Bool-cases (carry == 0)) [
  | inl q ↦ rw (q) tt
  | inr q ↦ rw (q) (omega arith, tt)
]
shl1_loop-IsLimb carry (limb ∷ limbs) c h =
    (omega arith, shl1_loop-IsLimb (limb / 2 ^ 31) limbs (omega (arith, h.0)) h.1)

shl1_loop-IsTrimmed :
    (carry : ℕ) (limbs : List ℕ) → IsNumber limbs → IsTrimmed (shl1_loop carry limbs)
unfolding shl1_loop
shl1_loop-IsTrimmed carry [] h = elim (Bool-cases (carry == 0)) [
  | inl q ↦ rw (q) tt
  | inr q ↦ rw (q) (ground arith, tt)
]
shl1_loop-IsTrimmed carry (limb ∷ limbs) h =
    let doubled = value-shl1_loop carry (limb ∷ limbs) h.0 in
    let positive = h.1.0 in (omega arith, shl1_loop-IsTrimmed (limb / 2 ^ 31) limbs (h.0.1, h.1.1))

pub shl1-IsNumber : (limbs : List ℕ) → IsNumber limbs → IsNumber (shl1 limbs)
unfolding shl1
shl1-IsNumber limbs h = (shl1_loop-IsLimb 0 limbs (omega arith) h.0, shl1_loop-IsTrimmed 0 limbs h)

sub_loop-IsLimb :
    (borrow : ℕ) (limbs ys : List ℕ)
    → All IsLimb limbs
    → All IsLimb ys
    → borrow ≤ 1
    → All IsLimb (sub_loop borrow limbs ys)
unfolding sub_loop
sub_loop-IsLimb borrow [] ys h g c = tt
sub_loop-IsLimb borrow (limb ∷ limbs) ys h g c =
    let small = h.0 in
    elim (Bool-cases (ltb limb (borrow + head_or_zero ys))) [
      | inl q ↦
          rw (q) (
            ground arith,
            sub_loop-IsLimb 1 limbs (rest_of ys) h.1 (IsLimb-rest ys g) (omega arith),
          )
      | inr q ↦
          rw (q) (
            ground arith,
            sub_loop-IsLimb 0 limbs (rest_of ys) h.1 (IsLimb-rest ys g) (omega arith),
          )
    ]

pub sub-IsNumber : (limbs ys : List ℕ) → All IsLimb limbs → All IsLimb ys → IsNumber (sub limbs ys)
unfolding sub
sub-IsNumber limbs ys h g =
    let loop = sub_loop-IsLimb 0 limbs ys h g (omega arith) in
    (trim-IsLimb (sub_loop 0 limbs ys) loop, trim-IsTrimmed (sub_loop 0 limbs ys))

-- Setting the lowest bit of an even number adds one.
pub or_one_lem :
    (limbs : List ℕ) (v : ℕ) → value limbs ≡ 2 * v → value (or_one limbs) ≡ value limbs + 1
or_one_lem [] v h = omega arith
or_one_lem (limb ∷ limbs) v h = omega arith

or_one-IsNumber : (limbs : List ℕ) → IsNumber limbs → IsNumber (or_one limbs)
or_one-IsNumber [] h = ((omega arith, tt), (omega arith, tt))
or_one-IsNumber (limb ∷ limbs) h = let small = h.0.0 in ((omega arith, h.0.1), (omega arith, h.1.1))

pub with_bit-IsNumber : (b : ℕ) (limbs : List ℕ) → IsNumber limbs → IsNumber (with_bit b limbs)
with_bit-IsNumber b limbs h = elim (Bool-cases (b == 0)) [
  | inl q ↦ rw (q) h
  | inr q ↦ rw (q) (or_one-IsNumber limbs h)
]

pub value-with_bit :
    (b v : ℕ) (limbs : List ℕ) → b ≤ 1 → value limbs ≡ 2 * v → value (with_bit b limbs) ≡ 2 * v + b
value-with_bit b v limbs c h =
    let one = or_one_lem limbs v h in
    elim (Bool-cases (b == 0)) [ inl q ↦ rw (q) (ground arith) | inr q ↦ rw (q) (ground arith) ]
