-- ===== src/Crypto/Bigint/Mod.antt =====
-- src/crypto/rsa.hpp: bigint's bits, comparison and remainder.
pub mod Bits
pub mod Compare
pub mod Limbs
pub mod Remainder
use hovorun.Prelude.{
  ltb, ◌==◌, if◌then◌else◌, length, get_or, ℤ, pos, negsuc, ℕ, zero, suc, ◌+◌, ◌*◌, ◌/◌, ◌%◌, Bool,
  true, false, not, List, [], ◌∷◌,
}
use hovorun.Crypto.Bigint.{shl1, sub}

-- `>>` of an unsigned number.
unfoldable pub shift_right : ℕ → ℕ → ℕ
shift_right x zero = x
shift_right x (suc n) = shift_right (x / 2) n

-- The loop over the top limb, which has 32 bits at most.
unfoldable pub bits : ℕ → ℕ → ℕ
bits zero top = 0
bits (suc n) top = let rest = bits n (top / 2) in if top == 0 then 0 else suc rest

unfoldable pub bit_length : List ℕ → ℕ
unfolding bits
bit_length [] = 0
bit_length (top ∷ []) = bits 32 top
bit_length (limb ∷ next ∷ limbs) = 32 + bit_length (next ∷ limbs)

unfoldable pub bit : List ℕ → ℕ → ℕ
unfolding shift_right
bit limbs n = shift_right (get_or limbs (n / 32) 0) (n % 32) % 2

abbrev pub compare_limb : ℕ → ℕ → ℤ
compare_limb x y = if x == y then pos 0 else if ltb x y then negsuc 0 else pos 1

-- The first difference decides.
abbrev pub or_next : ℤ → ℤ → ℤ
or_next (pos zero) next = next
or_next (pos (suc n)) next = pos (suc n)
or_next (negsuc n) next = negsuc n

-- The loop of compare over limbs of the same number, from the top.
unfoldable pub compare_limbs : List ℕ → List ℕ → ℤ
compare_limbs [] ys = pos 0
compare_limbs (x ∷ xs) [] = pos 0
compare_limbs (x ∷ xs) (y ∷ ys) = or_next (compare_limbs xs ys) (compare_limb x y)

unfoldable pub compare : List ℕ → List ℕ → ℤ
unfolding compare_limbs
compare xs ys =
    if not (length xs == length ys)
    then if ltb (length xs) (length ys) then negsuc 0 else pos 1
    else compare_limbs xs ys

-- m_limbs[0] |= 1, with a limb put there if there is none.
abbrev pub or_one : List ℕ → List ℕ
or_one [] = 1 ∷ []
or_one (limb ∷ limbs) = (limb / 2 * 2 + 1) ∷ limbs

abbrev pub is_negative : ℤ → Bool
is_negative (pos n) = false
is_negative (negsuc n) = true

abbrev pub with_bit : ℕ → List ℕ → List ℕ
with_bit b r = if b == 0 then r else or_one r

-- One round of the division.
unfoldable pub mod_step : ℕ → List ℕ → List ℕ → List ℕ
unfolding shl1 compare sub
mod_step b m r = let t = with_bit b (shl1 r) in if is_negative (compare t m) then t else sub t m

-- The rounds for the bits below `i`, from the top.
unfoldable pub mod_loop : List ℕ → List ℕ → ℕ → List ℕ → List ℕ
unfolding mod_step bit
mod_loop a m zero r = r
mod_loop a m (suc i) r = mod_loop a m i (mod_step (bit a i) m r)

unfoldable pub modulo : List ℕ → List ℕ → List ℕ
unfolding mod_loop bit_length
modulo a m = mod_loop a m (bit_length a) []
