-- ===== src/Crypto/Xor.antt =====
-- The exclusive or of two numbers, from its lowest digit up, and that it undoes itself.
use Prim.Native.Nat.{digits, differ, bit_xor-bitwise}
use hovorun.Prelude.{
  ℕ, zero, suc, ◌+◌, ◌*◌, ◌/◌, ◌%◌, ◌^◌, ◌≤◌, ◌<◌, bit_xor, ◌≡◌, refl, sym, ap, ◌∙◌, arith,
}

-- The fuel of `digits`, which the native operation stands for, is enough from the first number on.
xor_fuel :
    (n m a b : ℕ) → a ≤ n → a ≤ m → digits (λ y. y) differ n a b ≡ digits (λ y. y) differ m a b
xor_fuel n m zero b p q = from_zero n ∙ sym (from_zero m)
  where
    from_zero : (k : ℕ) → digits (λ y. y) differ k 0 b ≡ b
    from_zero zero = refl
    from_zero (suc k) = refl
xor_fuel zero m (suc a) b p q = absurd (omega arith)
xor_fuel (suc n) zero (suc a) b p q = absurd (omega arith)
xor_fuel (suc n) (suc m) (suc a) b p q =
    rw (xor_fuel n m (suc a / 2) (b / 2) (omega arith) (omega arith))

differ_lem : (x y : ℕ) → x < 2 → y < 2 → differ x y ≡ (x + y) % 2
differ_lem zero zero h k = refl
differ_lem zero (suc zero) h k = refl
differ_lem (suc zero) zero h k = refl
differ_lem (suc zero) (suc zero) h k = refl
differ_lem zero (suc (suc y)) h k = absurd (omega arith)
differ_lem (suc zero) (suc (suc y)) h k = absurd (omega arith)
differ_lem (suc (suc x)) y h k = absurd (omega arith)

bit_xor_step : (a b : ℕ) → bit_xor a b ≡ bit_xor (a / 2) (b / 2) * 2 + (a + b) % 2
bit_xor_step zero b = omega (arith, bit_xor-bitwise 0 b, bit_xor-bitwise 0 (b / 2))
bit_xor_step (suc a) b = omega (
  arith,
  bit_xor-bitwise (suc a) b,
  bit_xor-bitwise (suc a / 2) (b / 2),
  xor_fuel a (suc a / 2) (suc a / 2) (b / 2) (omega arith) (omega arith),
  differ_lem (suc a % 2) (b % 2) (omega arith) (omega arith),
)

xor_cancel_fuel : (n a k : ℕ) → a ≤ n → k ≤ n → bit_xor (bit_xor a k) k ≡ a
xor_cancel_fuel zero zero zero h g = refl
xor_cancel_fuel zero zero (suc k) h g = absurd (omega arith)
xor_cancel_fuel zero (suc a) k h g = absurd (omega arith)
xor_cancel_fuel (suc n) a k h g =
    let half : bit_xor a k / 2 ≡ bit_xor (a / 2) (k / 2) = omega (arith, bit_xor_step a k) in
    omega (
      arith,
      bit_xor_step a k,
      bit_xor_step (bit_xor a k) k,
      ap (λ x. bit_xor x (k / 2)) half,
      xor_cancel_fuel n (a / 2) (k / 2) (omega arith) (omega arith),
    )

-- A second exclusive or with the same number gives back the first.
pub xor_cancel : (a k : ℕ) → bit_xor (bit_xor a k) k ≡ a
xor_cancel a k = xor_cancel_fuel (a + k) a k (omega arith) (omega arith)

xor-lt_fuel : (n a b : ℕ) → a < 2 ^ n → b < 2 ^ n → bit_xor a b < 2 ^ n
xor-lt_fuel zero zero zero h g = omega arith
xor-lt_fuel zero zero (suc b) h g = absurd (omega arith)
xor-lt_fuel zero (suc a) b h g = absurd (omega arith)
xor-lt_fuel (suc n) a b h g =
    omega (arith, bit_xor_step a b, xor-lt_fuel n (a / 2) (b / 2) (omega arith) (omega arith))

pub xor-lt_byte : (a b : ℕ) → a < 256 → b < 256 → bit_xor a b < 256
xor-lt_byte a b h g = xor-lt_fuel 8 a b h g
