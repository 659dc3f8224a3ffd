-- ===== src/Crypto/Bigint/Mul/Product.antt =====
-- src/crypto/rsa.hpp: bigint::mul is the product.
use hovorun.Prelude.{
  length, replicate, All, ℕ, zero, suc, ◌+◌, ◌*◌, ◌^◌, ◌≡◌, refl, ap, ◌∙◌, List, [], ◌∷◌, arith,
}
use hovorun.Crypto.Bigint.Value.{value, IsLimb, value-trim}
use hovorun.Crypto.Bigint.Mod.Limbs.{IsNumber, trim-IsLimb, trim-IsTrimmed}
use hovorun.Crypto.Bigint.Mul.{add_row, mul_loop, mul}
use hovorun.Crypto.Bigint.Mul.Row.{
  Room, Row, Room-next, replicate-Room, add_row-Row, add_row-IsLimb, add_row_lem,
}
use native.Mathlib.Nat.{add-mul, mul_assoc}

value-replicate : (n : ℕ) → value (replicate n 0) ≡ 0
value-replicate zero = refl
value-replicate (suc n) = omega (arith, value-replicate n)

replicate-IsLimb : (n : ℕ) → All IsLimb (replicate n 0)
replicate-IsLimb zero = tt
replicate-IsLimb (suc n) = (omega arith, replicate-IsLimb n)

split_limb : (x v w : ℕ) → (x + 2 ^ 32 * v) * w ≡ x * w + 2 ^ 32 * (v * w)
split_limb x v w = add-mul x (2 ^ 32 * v) w ∙ ap (λ z. x * w + z) (mul_assoc (2 ^ 32) v w)

-- What the rows for `xs` do to the result from their first place on.
IsSum : List ℕ → List ℕ → List ℕ → List ℕ → Type 0
IsSum xs ys rs out = All IsLimb out × (value out ≡ value rs + value xs * value ys)

mul_loop_lem :
    (xs ys rs : List ℕ)
    → All IsLimb xs
    → All IsLimb ys
    → All IsLimb rs
    → Room (length xs) ys rs
    → IsSum xs ys rs (mul_loop xs ys rs)
unfolding mul_loop IsSum
mul_loop_lem [] ys rs h g l e = (l, omega arith)
mul_loop_lem (x ∷ xs) ys rs h g l e =
    let out = add_row x 0 ys rs in
    let out_row = add_row-Row (length xs) x 0 ys rs e in
    let out_limbs = add_row-IsLimb x 0 ys rs l in
    let out_value = add_row_lem (length xs) x 0 ys rs h.0 (omega arith) g l e in
    let split = split_limb x (value xs) (value ys) in
    elim out
        as (λ out.
          Row (length xs) ys out
          → All IsLimb out
          → value out ≡ value rs + x * value ys + 0
          → IsSum (x ∷ xs) ys rs (elim out [ [] ↦ [] | o ∷ os ↦ o ∷ mul_loop xs ys os ])) [
            | [] ↦ λ r a v. absurd r
            | o ∷ os ↦ λ r a v.
                let rest = mul_loop_lem xs ys os h.1 g a.1 (Room-next (length xs) ys o os r) in
                let rest_value = rest.1 in ((a.0, rest.0), omega arith)
          ]
      out_row out_limbs out_value

-- For limbs of 32 bits, mul returns the product, without a zero limb at the top.
pub mul_lem :
    (xs ys : List ℕ)
    → All IsLimb xs
    → All IsLimb ys
    → IsNumber (mul xs ys) × (value (mul xs ys) ≡ value xs * value ys)
unfolding mul IsSum
mul_lem [] ys h g = ((tt, tt), omega arith)
mul_lem (x ∷ xs) [] h g = ((tt, tt), omega arith)
mul_lem (x ∷ xs) (y ∷ ys) h g =
    let n : ℕ = length (x ∷ xs) + length (y ∷ ys) in
    let same : n ≡ length (y ∷ ys) + length (x ∷ xs) = omega arith in
    let zeros : List ℕ = replicate n 0 in
    let room : Room (length (x ∷ xs)) (y ∷ ys) zeros =
      replicate-Room n (length (x ∷ xs)) (y ∷ ys) same in
    let out : IsSum (x ∷ xs) (y ∷ ys) zeros (mul_loop (x ∷ xs) (y ∷ ys) zeros) =
      mul_loop_lem (x ∷ xs) (y ∷ ys) zeros h g (replicate-IsLimb n) room in
    let loop : List ℕ = mul_loop (x ∷ xs) (y ∷ ys) zeros in
    (
      (trim-IsLimb loop out.0, trim-IsTrimmed loop),
      value-trim loop
          ∙ out.1
          ∙ ap (λ v. v + value (x ∷ xs) * value (y ∷ ys)) (value-replicate n)
          ∙ omega arith,
    )
