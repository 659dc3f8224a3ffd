-- ===== src/Crypto/Bigint/Pow.antt =====
-- src/crypto/rsa.hpp: bigint::from_u32 and bigint::mod_pow.
pub mod Power
use hovorun.Prelude.{◌==◌, if◌then◌else◌, ℕ, zero, suc, List, [], ◌∷◌}
use hovorun.Crypto.Bigint.Mod.{bit_length, bit, modulo}
use hovorun.Crypto.Bigint.Mul.{mul}

unfoldable pub from_u32 : ℕ → List ℕ
from_u32 v = if v == 0 then [] else v ∷ []

-- One round: the result squared, and multiplied by the base where the bit is set.
unfoldable pub pow_step : ℕ → List ℕ → List ℕ → List ℕ → List ℕ
unfolding modulo mul
pow_step b base m result =
    let squared = modulo (mul result result) m in
    if b == 0 then squared else modulo (mul squared base) m

-- The rounds for the bits of the exponent below `i`, from the top.
unfoldable pub pow_loop : List ℕ → List ℕ → List ℕ → ℕ → List ℕ → List ℕ
unfolding pow_step bit
pow_loop exp base m zero result = result
pow_loop exp base m (suc i) result = pow_loop exp base m i (pow_step (bit exp i) base m result)

unfoldable pub mod_pow : List ℕ → List ℕ → List ℕ → List ℕ
unfolding pow_loop bit_length modulo from_u32
mod_pow base exp m = pow_loop exp (modulo base m) m (bit_length exp) (from_u32 1)
