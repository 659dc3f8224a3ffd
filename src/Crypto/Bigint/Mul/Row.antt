-- ===== src/Crypto/Bigint/Mul/Row.antt =====
-- src/crypto/rsa.hpp: a row of bigint::mul adds the product with one limb.
use hovorun.Prelude.{
  length, replicate, All, ℕ, zero, suc, ◌+◌, ◌-◌, ◌*◌, ◌/◌, ◌^◌, ◌≤◌, ◌≡◌, refl, ap, ◌∙◌, List, [],
  ◌∷◌, arith,
}
use hovorun.Crypto.Bigint.{head_or_zero, rest_of}
use hovorun.Crypto.Bigint.Value.{value, IsLimb}
use hovorun.Crypto.Bigint.Mul.{cur, add_row}
use native.Mathlib.Nat.{mul-add, mul-le-mul, mul_left_comm}

-- Limbs of any kind in the places of `ys`, and zeros in `k` places above.
abbrev pub Room : ℕ → List ℕ → List ℕ → Type 0
Room k [] rs = rs ≡ replicate k 0
Room k (y ∷ ys) [] = ⊥
Room k (y ∷ ys) (r ∷ rs) = Room k ys rs

-- The same, where the place above those of `ys` is in use as well.
abbrev pub Row : ℕ → List ℕ → List ℕ → Type 0
Row k ys [] = ⊥
Row k [] (r ∷ rs) = rs ≡ replicate k 0
Row k (y ∷ ys) (r ∷ rs) = Row k ys rs

pub Room-next : (k : ℕ) (ys : List ℕ) (r : ℕ) (rs : List ℕ) → Row k ys (r ∷ rs) → Room k ys rs
Room-next k [] r rs h = h
Room-next k (y ∷ ys) r [] h = h
Room-next k (y ∷ ys) r (s ∷ rs) h = Room-next k ys s rs h

pub replicate-Room : (n k : ℕ) (ys : List ℕ) → n ≡ length ys + k → Room k ys (replicate n 0)
replicate-Room n k [] h = let same : n ≡ k = omega arith in ap (λ m. replicate m 0) same
replicate-Room zero k (y ∷ ys) h = absurd (omega arith)
replicate-Room (suc n) k (y ∷ ys) h = replicate-Room n k ys (omega arith)

-- No intermediate result leaves the 64 bits.
cur_lem :
    (r x y carry : ℕ)
    → IsLimb r
    → IsLimb x
    → IsLimb y
    → IsLimb carry
    → (cur r x y carry ≡ r + x * y + carry) × IsLimb (cur r x y carry / 2 ^ 32)
unfolding cur
cur_lem r x y carry a b c d =
    let top : (2 ^ 32 - 1) * (2 ^ 32 - 1) ≡ 18446744065119617025 = refl in
    let x_top : x ≤ 2 ^ 32 - 1 = omega arith in
    let y_top : y ≤ 2 ^ 32 - 1 = omega arith in
    let product : x * y ≤ (2 ^ 32 - 1) * (2 ^ 32 - 1) = mul-le-mul x_top y_top in
    (omega arith, omega arith)

pub add_row-Row :
    (k x carry : ℕ) (ys rs : List ℕ) → Room (suc k) ys rs → Row k ys (add_row x carry ys rs)
unfolding add_row
add_row-Row k x carry [] [] h = let lengths = ap length h in absurd (omega arith)
add_row-Row k x carry [] (r ∷ rs) h = ap rest_of h
add_row-Row k x carry (y ∷ ys) [] h = h
add_row-Row k x carry (y ∷ ys) (r ∷ rs) h = add_row-Row k x (cur r x y carry / 2 ^ 32) ys rs h

pub add_row-IsLimb :
    (x carry : ℕ) (ys rs : List ℕ) → All IsLimb rs → All IsLimb (add_row x carry ys rs)
unfolding add_row
add_row-IsLimb x carry ys [] h = tt
add_row-IsLimb x carry [] (r ∷ rs) h = (omega arith, h.1)
add_row-IsLimb x carry (y ∷ ys) (r ∷ rs) h =
    (omega arith, add_row-IsLimb x (cur r x y carry / 2 ^ 32) ys rs h.1)

-- The row of the limb `x`, in a result with a free place above those of `ys`.
pub add_row_lem :
    (k x carry : ℕ) (ys rs : List ℕ)
    → IsLimb x
    → IsLimb carry
    → All IsLimb ys
    → All IsLimb rs
    → Room (suc k) ys rs
    → value (add_row x carry ys rs) ≡ value rs + x * value ys + carry
unfolding add_row
add_row_lem k x carry [] [] b c g h e = let lengths = ap length e in absurd (omega arith)
add_row_lem k x carry [] (r ∷ rs) b c g h e = let free : r ≡ 0 = ap head_or_zero e in omega arith
add_row_lem k x carry (y ∷ ys) [] b c g h e = absurd e
add_row_lem k x carry (y ∷ ys) (r ∷ rs) b c g h e =
    let sum = cur_lem r x y carry h.0 b g.0 c in
    let higher = add_row_lem k x (cur r x y carry / 2 ^ 32) ys rs b sum.1 g.1 h.1 e in
    let whole = sum.0 in
    let split : x * (y + 2 ^ 32 * value ys) ≡ x * y + 2 ^ 32 * (x * value ys) =
      mul-add x y (2 ^ 32 * value ys) ∙ ap (λ v. x * y + v) (mul_left_comm x (2 ^ 32) (value ys)) in
    omega arith
