-- ===== src/Crypto/Bigint/Pow/Power.antt =====
-- src/crypto/rsa.hpp: bigint::mod_pow is the power.
use hovorun.Prelude.{
  ◌==◌, Bool-cases, All, ℕ, zero, suc, ◌+◌, ◌*◌, ◌/◌, ◌%◌, ◌^◌, ◌≤◌, ◌<◌, ◌≡◌, sym, ap, ◌∙◌, inl,
  inr, List, [], ◌∷◌, arith,
}
use hovorun.Crypto.Bigint.Value.{value, IsLimb}
use hovorun.Crypto.Bigint.Mod.{shift_right, bit_length, bit, modulo}
use hovorun.Crypto.Bigint.Mod.Bits.{bit_lem, bit_length_lem}
use hovorun.Crypto.Bigint.Mod.Limbs.{IsNumber}
use hovorun.Crypto.Bigint.Mod.Remainder.{shift_right-half, modulo_lem}
use hovorun.Crypto.Bigint.Mul.{mul}
use hovorun.Crypto.Bigint.Mul.Product.{mul_lem}
use hovorun.Crypto.Bigint.Pow.{from_u32, pow_step, pow_loop, mod_pow}
use native.Mathlib.Nat.{
  add-mul, add-mul-mod_self_left, mod-add-div, mod-eq_of_lt, mul_assoc, mul_comm, pow-suc, pow-zero,
}

mul-mod_left_factor : (a b m : ℕ) → (a % m * b) % m ≡ (a * b) % m
mul-mod_left_factor a b m =
    let whole : a * b ≡ a % m * b + m * (a / m * b) =
      ap (λ v. v * b) (sym (mod-add-div a m))
      ∙ add-mul (a % m) (m * (a / m)) b
      ∙ ap (λ v. a % m * b + v) (mul_assoc m (a / m) b) in
    rw (whole) (sym (add-mul-mod_self_left (a % m * b) m (a / m * b)))

-- The remainder of a product is that of the product of the remainders.
mul-mod_factors : (a b m : ℕ) → (a % m * (b % m)) % m ≡ (a * b) % m
mul-mod_factors a b m =
    mul-mod_left_factor a (b % m) m
    ∙ ap (λ v. v % m) (mul_comm a (b % m))
    ∙ mul-mod_left_factor b a m
    ∙ ap (λ v. v % m) (mul_comm b a)

pow-add : (b m n : ℕ) → b ^ (m + n) ≡ b ^ m * b ^ n
pow-add b m zero =
    let same : m + 0 ≡ m = omega arith in
    let one : b ^ m * b ^ 0 ≡ b ^ m = ap (λ v. b ^ m * v) (pow-zero b) ∙ omega arith in
    ap (λ e. b ^ e) same ∙ sym one
pow-add b m (suc n) =
    let same : m + suc n ≡ suc (m + n) = omega arith in
    ap (λ e. b ^ e) same
    ∙ pow-suc b (m + n)
    ∙ ap (λ v. v * b) (pow-add b m n)
    ∙ mul_assoc (b ^ m) (b ^ n) b
    ∙ ap (λ v. b ^ m * v) (sym (pow-suc b n))

-- A product of two remainders, reduced again.
pub modulo-mul :
    (xs ys m : List ℕ) (v w : ℕ)
    → IsNumber xs
    → IsNumber ys
    → IsNumber m
    → 0 < value m
    → value xs ≡ v % value m
    → value ys ≡ w % value m
    → IsNumber (modulo (mul xs ys) m) × (value (modulo (mul xs ys) m) ≡ (v * w) % value m)
modulo-mul xs ys m v w h g k p e f =
    let product = mul_lem xs ys h.0 g.0 in
    let rest = modulo_lem (mul xs ys) m product.0.0 k p in
    (
      rest.0,
      rest.1
          ∙ ap (λ z. z % value m) product.1
          ∙ ap (λ z. (z * value ys) % value m) e
          ∙ ap (λ z. (v % value m * z) % value m) f
          ∙ mul-mod_factors v w (value m),
    )

-- A round takes the power of half an exponent to that of the exponent.
pow_step_lem :
    (b v q : ℕ) (base m result : List ℕ)
    → b ≤ 1
    → IsNumber base
    → IsNumber m
    → IsNumber result
    → 0 < value m
    → value base ≡ v % value m
    → value result ≡ v ^ q % value m
    → IsNumber (pow_step b base m result)
      × (value (pow_step b base m result) ≡ v ^ (q + q + b) % value m)
unfolding pow_step
pow_step_lem b v q base m result c h g k p e f =
    let squared = modulo-mul result result m (v ^ q) (v ^ q) k k g p f f in
    let twice : value (modulo (mul result result) m) ≡ v ^ (q + q) % value m =
      squared.1 ∙ ap (λ z. z % value m) (sym (pow-add v q q)) in
    let times =
      modulo-mul (modulo (mul result result) m) base m (v ^ (q + q)) v squared.0 h g p twice e in
    elim (Bool-cases (b == 0)) [
      | inl t ↦ let same : q + q + b ≡ q + q = ground arith in rw (t, same) (squared.0, twice)
      | inr t ↦
          let same : q + q + b ≡ suc (q + q) = ground arith in
          rw (t, same) (times.0, times.1 ∙ ap (λ z. z % value m) (sym (pow-suc v (q + q))))
    ]

-- The rounds go from the power for the higher bits of the exponent to that for all of them.
pow_loop_lem :
    (exp base m : List ℕ) (v i : ℕ) (result : List ℕ)
    → All IsLimb exp
    → IsNumber base
    → IsNumber m
    → IsNumber result
    → 0 < value m
    → value base ≡ v % value m
    → value result ≡ v ^ shift_right (value exp) i % value m
    → IsNumber (pow_loop exp base m i result)
      × (value (pow_loop exp base m i result) ≡ v ^ value exp % value m)
unfolding pow_loop shift_right
pow_loop_lem exp base m v zero result d h g k p e f = (k, f)
pow_loop_lem exp base m v (suc i) result d h g k p e f =
    let high = shift_right (value exp) i in
    let b_lem = bit_lem exp i d in
    let small : bit exp i ≤ 1 = omega arith in
    let half = shift_right-half (value exp) i in
    let joined : high / 2 + high / 2 + bit exp i ≡ high = omega arith in
    let start : value result ≡ v ^ (high / 2) % value m = f ∙ ap (λ n. v ^ n % value m) half in
    let step = pow_step_lem (bit exp i) v (high / 2) base m result small h g k p e start in
    pow_loop_lem exp base m v i (pow_step (bit exp i) base m result) d h g step.0 p e
      (step.1 ∙ ap (λ n. v ^ n % value m) joined)

-- For limbs of 32 bits and a modulus of at least 2 without a zero limb at the top, mod_pow returns, as
-- a number without a zero limb at the top, the remainder of the power.
pub mod_pow_lem :
    (base exp m : List ℕ)
    → All IsLimb base
    → All IsLimb exp
    → IsNumber m
    → 1 < value m
    → IsNumber (mod_pow base exp m)
      × (value (mod_pow base exp m) ≡ value base ^ value exp % value m)
unfolding mod_pow from_u32
mod_pow_lem base exp m h d g p =
    let positive : 0 < value m = omega arith in
    let reduced = modulo_lem base m h g positive in
    let top = ap (λ n. value base ^ n % value m) (bit_length_lem exp d) in
    let one : value base ^ 0 % value m ≡ 1 =
      ap (λ v. v % value m) (pow-zero (value base)) ∙ mod-eq_of_lt p in
    let one_number : IsNumber (1 ∷ []) = ((omega arith, tt), (omega arith, tt)) in
    let one_value : value (1 ∷ []) ≡ 1 = omega arith in
    pow_loop_lem exp (modulo base m) m (value base) (bit_length exp) (1 ∷ []) d reduced.0 g
      one_number positive reduced.1 (one_value ∙ sym (top ∙ one))
