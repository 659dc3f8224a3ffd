-- ===== src/Crypto/Bigint/Mod/Compare.antt =====
-- src/crypto/rsa.hpp: bigint::compare orders the numbers.
use hovorun.Prelude.{
  ltb, ◌==◌, Bool-cases, length, All, ℤ, pos, negsuc, ℕ, zero, suc, ◌+◌, ◌*◌, ◌^◌, ◌<◌, ◌≡◌, refl,
  inl, inr, List, [], ◌∷◌, arith,
}
use hovorun.Crypto.Bigint.Value.{value, IsLimb}
use hovorun.Crypto.Bigint.Mod.{compare_limb, or_next, compare_limbs, compare}
use hovorun.Crypto.Bigint.Mod.Limbs.{IsTrimmed, IsNumber}

-- The sign says how `v` stands to `w`.
abbrev pub Orders : ℤ → ℕ → ℕ → Type 0
Orders (pos zero) v w = v ≡ w
Orders (pos (suc n)) v w = w < v
Orders (negsuc n) v w = v < w

compare_limb_lem : (x y : ℕ) → Orders (compare_limb x y) x y
compare_limb_lem x y = elim (Bool-cases (x == y)) [
  | inl q ↦ rw (q) (ground arith)
  | inr q ↦ elim (Bool-cases (ltb x y)) [
    | inl p ↦ rw (q, p) (ground arith)
    | inr p ↦ rw (q, p) (ground arith)
  ]
]

same_rest : (c : ℤ) (x y v : ℕ) → Orders c x y → Orders c (x + v) (y + v)
same_rest (pos zero) x y v h = omega arith
same_rest (pos (suc n)) x y v h = omega arith
same_rest (negsuc n) x y v h = omega arith

-- A difference at the higher limbs decides, whatever the lower are.
or_next_lem :
    (c next : ℤ) (x y v w : ℕ)
    → IsLimb x
    → IsLimb y
    → Orders c v w
    → Orders next x y
    → Orders (or_next c next) (x + 2 ^ 32 * v) (y + 2 ^ 32 * w)
or_next_lem (pos zero) next x y v w l m h g = rw (h) (same_rest next x y (2 ^ 32 * w) g)
or_next_lem (pos (suc n)) next x y v w l m h g = omega arith
or_next_lem (negsuc n) next x y v w l m h g = omega arith

compare_limbs_lem :
    (xs ys : List ℕ)
    → length xs ≡ length ys
    → All IsLimb xs
    → All IsLimb ys
    → Orders (compare_limbs xs ys) (value xs) (value ys)
unfolding compare_limbs
compare_limbs_lem [] [] e h g = refl
compare_limbs_lem [] (y ∷ ys) e h g = absurd (omega arith)
compare_limbs_lem (x ∷ xs) [] e h g = absurd (omega arith)
compare_limbs_lem (x ∷ xs) (y ∷ ys) e h g =
    let higher = compare_limbs_lem xs ys (omega arith) h.1 g.1 in
    or_next_lem (compare_limbs xs ys) (compare_limb x y) x y (value xs) (value ys) h.0 g.0 higher
      (compare_limb_lem x y)

-- More limbs, a larger number.
longer-larger :
    (xs ys : List ℕ) → length xs < length ys → All IsLimb xs → IsTrimmed ys → value xs < value ys
longer-larger xs [] e h g = absurd (omega arith)
longer-larger [] (y ∷ ys) e h g = g.0
longer-larger (x ∷ xs) (y ∷ ys) e h g =
    let higher = longer-larger xs ys (omega arith) h.1 g.1 in omega (arith, h.0)

-- compare of two numbers, in limbs of 32 bits without zeros at the top, gives 0 exactly for the same
-- number, a positive result for a larger first number and a negative one for a smaller.
pub compare_lem :
    (xs ys : List ℕ) → IsNumber xs → IsNumber ys → Orders (compare xs ys) (value xs) (value ys)
unfolding compare
compare_lem xs ys h g = elim (Bool-cases (length xs == length ys)) [
  | inl q ↦ rw (q) (compare_limbs_lem xs ys (ground arith) h.0 g.0)
  | inr q ↦ elim (Bool-cases (ltb (length xs) (length ys))) [
    | inl p ↦ rw (q, p) (longer-larger xs ys (ground arith) h.0 g.1)
    | inr p ↦ rw (q, p) (longer-larger ys xs (ground arith) g.0 h.1)
  ]
]
