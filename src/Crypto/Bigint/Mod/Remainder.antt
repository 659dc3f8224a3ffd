-- ===== src/Crypto/Bigint/Mod/Remainder.antt =====
-- src/crypto/rsa.hpp: bigint::mod is the remainder.
use hovorun.Prelude.{
  if◌then◌else◌, All, ℤ, pos, negsuc, ℕ, zero, suc, ◌+◌, ◌-◌, ◌*◌, ◌/◌, ◌%◌, ◌≤◌, ◌<◌, ◌≡◌, refl,
  sym, ap, ◌∙◌, List, [], arith,
}
use hovorun.Crypto.Bigint.{shl1, sub}
use hovorun.Crypto.Bigint.Value.{value, IsLimb, value-shl1, value-sub}
use hovorun.Crypto.Bigint.Mod.{
  shift_right, bit_length, bit, compare, is_negative, with_bit, mod_step, mod_loop, modulo,
}
use hovorun.Crypto.Bigint.Mod.Bits.{bit_lem, bit_length_lem}
use hovorun.Crypto.Bigint.Mod.Limbs.{
  IsNumber, shl1-IsNumber, sub-IsNumber, with_bit-IsNumber, value-with_bit,
}
use hovorun.Crypto.Bigint.Mod.Compare.{Orders, compare_lem}
use native.Mathlib.Nat.{
  add-mul-mod_self_left, mod-add-div, mod-eq_of_lt, mod-eq-sub-mod, mod-lt, mul-add,
}

-- Bringing a bit down to a number or to its remainder is the same up to the modulus.
double_mod : (a b m : ℕ) → (2 * (a % m) + b) % m ≡ (2 * a + b) % m
double_mod a b m =
    let whole = mod-add-div a m in
    let twice = mul-add m (a / m) (a / m) in
    let split : 2 * a + b ≡ (2 * (a % m) + b) + m * (a / m + a / m) = omega arith in
    rw (split) (sym (add-mul-mod_self_left (2 * (a % m) + b) m (a / m + a / m)))

below_once : (n m : ℕ) → m ≤ n → n < 2 * m → n % m ≡ n - m
below_once n m h g = let small : n - m < m = omega arith in mod-eq-sub-mod h ∙ mod-eq_of_lt small

-- What a round of mod does to a number `t` below 2m.
IsReduced : List ℕ → List ℕ → List ℕ → Type 0
IsReduced t m r = IsNumber r × (value r ≡ value t % value m)

reduced :
    (c : ℤ) (t m : List ℕ)
    → IsNumber t
    → IsNumber m
    → value t < 2 * value m
    → Orders c (value t) (value m)
    → IsReduced t m (if is_negative c then t else sub t m)
unfolding IsReduced
reduced (negsuc n) t m h g e o = (h, sym (mod-eq_of_lt o))
reduced (pos zero) t m h g e o =
    let least : value m ≤ value t = omega arith in
    let taken = value-sub t m h.0 g.0 least in
    let once = below_once (value t) (value m) least e in (sub-IsNumber t m h.0 g.0, omega arith)
reduced (pos (suc n)) t m h g e o =
    let least : value m ≤ value t = omega arith in
    let taken = value-sub t m h.0 g.0 least in
    let once = below_once (value t) (value m) least e in (sub-IsNumber t m h.0 g.0, omega arith)

-- A round on a remainder `r` brings the bit down: (2r + b) mod m.
mod_step_lem :
    (b : ℕ) (m r : List ℕ)
    → b ≤ 1
    → IsNumber m
    → IsNumber r
    → value r < value m
    → IsNumber (mod_step b m r) × (value (mod_step b m r) ≡ (2 * value r + b) % value m)
unfolding mod_step IsReduced
mod_step_lem b m r c g h e =
    let t = with_bit b (shl1 r) in
    let t_ok = with_bit-IsNumber b (shl1 r) (shl1-IsNumber r h) in
    let t_value = value-with_bit b (value r) (shl1 r) c (value-shl1 r h.0) in
    let step = reduced (compare t m) t m t_ok g (omega arith) (compare_lem t m t_ok g) in
    (step.0, step.1 ∙ ap (λ v. v % value m) t_value)

pub shift_right-half : (x n : ℕ) → shift_right x (suc n) ≡ shift_right x n / 2
unfolding shift_right
shift_right-half x zero = refl
shift_right-half x (suc n) = shift_right-half (x / 2) n

-- The rounds go from the remainder of the higher bits to that of the number.
mod_loop_lem :
    (a m : List ℕ) (i : ℕ) (r : List ℕ)
    → All IsLimb a
    → IsNumber m
    → 0 < value m
    → IsNumber r
    → value r ≡ shift_right (value a) i % value m
    → IsNumber (mod_loop a m i r) × (value (mod_loop a m i r) ≡ value a % value m)
unfolding mod_loop shift_right
mod_loop_lem a m zero r h g p k e = (k, e)
mod_loop_lem a m (suc i) r h g p k e =
    let high = shift_right (value a) i in
    let b_lem = bit_lem a i h in
    let small : bit a i ≤ 1 = omega arith in
    let below : value r < value m = rw (e) (mod-lt (shift_right (value a) (suc i)) p) in
    let step = mod_step_lem (bit a i) m r small g k below in
    let half = shift_right-half (value a) i in
    let joined : 2 * (high / 2) + bit a i ≡ high = omega arith in
    let rem : value r ≡ (high / 2) % value m = e ∙ ap (λ v. v % value m) half in
    let next : value (mod_step (bit a i) m r) ≡ high % value m =
      step.1
      ∙ ap (λ v. (2 * v + bit a i) % value m) rem
      ∙ double_mod (high / 2) (bit a i) (value m)
      ∙ ap (λ v. v % value m) joined in
    mod_loop_lem a m i (mod_step (bit a i) m r) h g p step.0 next

-- For limbs of 32 bits and a modulus that is not zero and has no zero limb at the top, mod returns,
-- as a number without a zero limb at the top, the remainder of the division.
pub modulo_lem :
    (a m : List ℕ)
    → All IsLimb a
    → IsNumber m
    → 0 < value m
    → IsNumber (modulo a m) × (value (modulo a m) ≡ value a % value m)
unfolding modulo
modulo_lem a m h g p =
    let start = ap (λ v. v % value m) (bit_length_lem a h) in
    let small = mod-eq_of_lt p in
    mod_loop_lem a m (bit_length a) [] h g p (tt, tt) (sym (start ∙ small))
