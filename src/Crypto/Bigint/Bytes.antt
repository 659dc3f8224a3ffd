-- ===== src/Crypto/Bigint/Bytes.antt =====
-- src/crypto/rsa.hpp: bigint::from_le_bytes, from_be_bytes and to_le_bytes.
pub mod Convert
use hovorun.Prelude.{get_or, ℕ, zero, suc, ◌+◌, ◌*◌, ◌/◌, ◌%◌, ◌^◌, List, [], ◌∷◌}
use hovorun.Crypto.Bigint.{trim}
use mathlib.Core.List.{reverse}

-- Four bytes at their places in a limb, which is zero before.
abbrev pub limb_of : ℕ → ℕ → ℕ → ℕ → ℕ
limb_of a b c d = a + b * 2 ^ 8 + c * 2 ^ 16 + d * 2 ^ 24

-- The loop over the bytes, a limb at a time.
unfoldable pub limbs_of : List ℕ → List ℕ
limbs_of [] = []
limbs_of (a ∷ []) = limb_of a 0 0 0 ∷ []
limbs_of (a ∷ b ∷ []) = limb_of a b 0 0 ∷ []
limbs_of (a ∷ b ∷ c ∷ []) = limb_of a b c 0 ∷ []
limbs_of (a ∷ b ∷ c ∷ d ∷ bytes) = limb_of a b c d ∷ limbs_of bytes

unfoldable pub from_le_bytes : List ℕ → List ℕ
unfolding limbs_of trim
from_le_bytes bytes = trim (limbs_of bytes)

unfoldable pub from_be_bytes : List ℕ → List ℕ
unfolding from_le_bytes
from_be_bytes be = from_le_bytes (reverse be)

-- static_cast<uint8_t>(limb >> (8 * j)), for the four places of a limb.
abbrev pub byte_of : ℕ → ℕ → ℕ
byte_of limb zero = limb % 256
byte_of limb (suc zero) = limb / 2 ^ 8 % 256
byte_of limb (suc (suc zero)) = limb / 2 ^ 16 % 256
byte_of limb (suc (suc (suc j))) = limb / 2 ^ 24 % 256

-- The bytes from `i` on, `n` of them; those above the limbs are zero.
unfoldable pub to_le_loop : List ℕ → ℕ → ℕ → List ℕ
to_le_loop limbs i zero = []
to_le_loop limbs i (suc n) = byte_of (get_or limbs (i / 4) 0) (i % 4) ∷ to_le_loop limbs (suc i) n

unfoldable pub to_le_bytes : List ℕ → ℕ → List ℕ
unfolding to_le_loop
to_le_bytes limbs size = to_le_loop limbs 0 size
