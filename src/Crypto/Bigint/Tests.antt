-- ===== src/Crypto/Bigint/Tests.antt =====
-- src/crypto/rsa.hpp: numbers of a few limbs, and the theorems at them.
use hovorun.Prelude.{◌%◌, ◌^◌, ◌≡◌, refl, [], ◌∷◌, arith}
use hovorun.Crypto.Bigint.{trim, shl1_loop, shl1, sub_loop, sub}
use hovorun.Crypto.Bigint.Value.{value}
use hovorun.Crypto.Bigint.Bytes.{to_le_loop, to_le_bytes}
use hovorun.Crypto.Bigint.Mod.{
  shift_right, bits, bit_length, bit, compare_limbs, compare, mod_step, mod_loop, modulo,
}
use hovorun.Crypto.Bigint.Mod.Limbs.{IsNumber}
use hovorun.Crypto.Bigint.Mod.Remainder.{modulo_lem}
use hovorun.Crypto.Bigint.Mul.{cur, add_row, mul_loop, mul}
use hovorun.Crypto.Bigint.Pow.{from_u32, pow_step, pow_loop, mod_pow}
use hovorun.Crypto.Bigint.Pow.Power.{mod_pow_lem}

doubled : shl1 (0xFFFFFFFF ∷ 0x80000000 ∷ []) ≡ 0xFFFFFFFE ∷ 1 ∷ 1 ∷ []
unfolding shl1 shl1_loop
doubled = refl

taken_off : sub (0 ∷ 1 ∷ []) (1 ∷ []) ≡ 0xFFFFFFFF ∷ []
unfolding sub sub_loop trim
taken_off = refl

-- 4 ^ 13 modulo 497
powered : mod_pow (4 ∷ []) (13 ∷ []) (497 ∷ []) ≡ 445 ∷ []
unfolding mod_pow pow_loop pow_step from_u32 bit_length bits bit shift_right modulo mod_loop
    mod_step compare compare_limbs mul mul_loop add_row cur shl1 shl1_loop sub sub_loop trim
powered = refl

-- The square of the largest limb.
squared : mul (0xFFFFFFFF ∷ []) (0xFFFFFFFF ∷ []) ≡ 1 ∷ 0xFFFFFFFE ∷ []
unfolding mul mul_loop add_row cur trim
squared = refl

written : to_le_bytes (0x04030201 ∷ 5 ∷ []) 6 ≡ 1 ∷ 2 ∷ 3 ∷ 4 ∷ 5 ∷ 0 ∷ []
unfolding to_le_bytes to_le_loop
written = refl

two_limbs-IsNumber : IsNumber (0 ∷ 1 ∷ [])
two_limbs-IsNumber = ((omega arith, (omega arith, tt)), (omega arith, (omega arith, tt)))

modulo_lem_example :
    IsNumber (modulo (7 ∷ 7 ∷ 7 ∷ []) (0 ∷ 1 ∷ []))
    × (value (modulo (7 ∷ 7 ∷ 7 ∷ []) (0 ∷ 1 ∷ [])) ≡ value (7 ∷ 7 ∷ 7 ∷ []) % value (0 ∷ 1 ∷ []))
modulo_lem_example =
    modulo_lem (7 ∷ 7 ∷ 7 ∷ []) (0 ∷ 1 ∷ []) (omega arith, (omega arith, (omega arith, tt)))
      two_limbs-IsNumber (omega arith)

mod_pow_lem_example :
    IsNumber (mod_pow (5 ∷ []) (3 ∷ []) (0 ∷ 1 ∷ []))
    × (value (mod_pow (5 ∷ []) (3 ∷ []) (0 ∷ 1 ∷ []))
        ≡ value (5 ∷ []) ^ value (3 ∷ []) % value (0 ∷ 1 ∷ []))
mod_pow_lem_example =
    mod_pow_lem (5 ∷ []) (3 ∷ []) (0 ∷ 1 ∷ []) (omega arith, tt) (omega arith, tt)
      two_limbs-IsNumber (omega arith)
