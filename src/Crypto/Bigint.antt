-- ===== src/Crypto/Bigint.antt =====
-- src/crypto/rsa.hpp, class bigint: a number is the list of its 32-bit limbs, the least significant
-- first.
pub mod Bytes
pub mod Mod
pub mod Mul
pub mod Pow
pub mod Value
mod Tests
use hovorun.Prelude.{
  ltb, ◌==◌, if◌then◌else◌, ℕ, ◌+◌, ◌-◌, ◌*◌, ◌/◌, ◌%◌, ◌^◌, Bool, true, false, ◌&&◌, List, [], ◌∷◌,
}

abbrev is_nil : List ℕ → Bool
is_nil [] = true
is_nil _ = false

-- The limbs without the zeros at the top.
unfoldable pub trim : List ℕ → List ℕ
trim [] = []
trim (limb ∷ limbs) = let rest = trim limbs in if limb == 0 && is_nil rest then [] else limb ∷ rest

-- (limb << 1) | carry, where the lowest bit of the first is zero.
pub shl1_loop : ℕ → List ℕ → List ℕ
shl1_loop carry [] = if carry == 0 then [] else carry ∷ []
shl1_loop carry (limb ∷ limbs) = (limb * 2 % 2 ^ 32 + carry) ∷ shl1_loop (limb / 2 ^ 31) limbs

pub shl1 : List ℕ → List ℕ
unfolding shl1_loop
shl1 limbs = shl1_loop 0 limbs

abbrev head_or_zero : List ℕ → ℕ
head_or_zero [] = 0
head_or_zero (b ∷ bs) = b

abbrev rest_of : List ℕ → List ℕ
rest_of [] = []
rest_of (b ∷ bs) = bs

-- cur = limb - borrow - b; below zero, 2^32 is added and borrowed.
pub sub_loop : ℕ → List ℕ → List ℕ → List ℕ
sub_loop borrow [] bs = []
sub_loop borrow (limb ∷ limbs) bs =
    let b = head_or_zero bs in
    let below = sub_loop 1 limbs (rest_of bs) in
    let above = sub_loop 0 limbs (rest_of bs) in
    if ltb limb (borrow + b)
    then (limb + 2 ^ 32 - (borrow + b)) ∷ below
    else (limb - (borrow + b)) ∷ above

pub sub : List ℕ → List ℕ → List ℕ
unfolding sub_loop trim
sub limbs bs = trim (sub_loop 0 limbs bs)
