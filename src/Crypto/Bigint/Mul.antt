-- ===== src/Crypto/Bigint/Mul.antt =====
-- src/crypto/rsa.hpp: bigint::mul. A row works on the limbs of the result from its own place on.
pub mod Row
pub mod Product
use hovorun.Prelude.{length, replicate, ℕ, ◌+◌, ◌*◌, ◌/◌, ◌%◌, ◌^◌, List, [], ◌∷◌}
use hovorun.Crypto.Bigint.{trim}

-- r[i + j] + a[i] * b[j] + carry, in 64 bits.
unfoldable pub cur : ℕ → ℕ → ℕ → ℕ → ℕ
cur r x y carry = (r + x * y + carry) % 2 ^ 64

-- The loop over the limbs of b, and the carry put above them.
unfoldable pub add_row : ℕ → ℕ → List ℕ → List ℕ → List ℕ
unfolding cur
add_row x carry ys [] = []
add_row x carry [] (r ∷ rs) = ((r + carry) % 2 ^ 32) ∷ rs
add_row x carry (y ∷ ys) (r ∷ rs) =
    let c = cur r x y carry in (c % 2 ^ 32) ∷ add_row x (c / 2 ^ 32) ys rs

-- The loop over the limbs of a: the lowest limb is done after its row.
unfoldable pub mul_loop : List ℕ → List ℕ → List ℕ → List ℕ
unfolding add_row
mul_loop [] ys rs = rs
mul_loop (x ∷ xs) ys rs = elim (add_row x 0 ys rs) [
  | [] ↦ []
  | out ∷ outs ↦ out ∷ mul_loop xs ys outs
]

unfoldable pub mul : List ℕ → List ℕ → List ℕ
unfolding mul_loop trim
mul [] ys = []
mul (x ∷ xs) [] = []
mul (x ∷ xs) (y ∷ ys) =
    trim (mul_loop (x ∷ xs) (y ∷ ys) (replicate (length (x ∷ xs) + length (y ∷ ys)) 0))
