-- ===== src/Prelude/Int.antt =====
-- Signed integers over the native numbers, and their two's complement words.
use Prim.Native.Nat.{ℕ, ◌-◌, ◌*◌, ◌%◌, ◌<◌}
use mathlib.Core.Path.{◌≡◌}
use mathlib.Core.Bool.{Bool, true}
use native.Mathlib.Nat.{mod-eq_of_lt}
use native.Mathlib.Omega.{arith}
use hovorun.Prelude.Tests.{ltb, if◌then◌else◌}

-- `negsuc n` is -(n + 1).
pub data ℤ : Type 0 where
  pos : ℕ → ℤ
  negsuc : ℕ → ℤ

-- The word of `2 * h` values that holds `v`: a conversion to an integer type of that many values.
unfoldable pub wrap : ℕ → ℤ → ℕ
wrap h (pos n) = n % (2 * h)
wrap h (negsuc n) = 2 * h - 1 - n % (2 * h)

-- The signed value of a word of `2 * h` values.
unfoldable pub signed : ℕ → ℕ → ℤ
signed h x = if ltb x h then pos x else negsuc (2 * h - 1 - x)

-- `-h ≤ v < h`: what std::in_range asks of a signed type of `2 * h` values.
abbrev pub in_range : ℕ → ℤ → Bool
in_range h (pos n) = ltb n h
in_range h (negsuc n) = ltb n h

abbrev pub InRange : ℕ → ℤ → Type 0
InRange h (pos n) = n < h
InRange h (negsuc n) = n < h

pub wrap-lt : (h : ℕ) (v : ℤ) → 0 < h → wrap h v < 2 * h
unfolding wrap
wrap-lt h (pos n) p = omega arith
wrap-lt h (negsuc n) p = omega arith

pub signed-wrap : (h : ℕ) (v : ℤ) → InRange h v → signed h (wrap h v) ≡ v
unfolding wrap signed
signed-wrap h (pos n) p = ground (arith, mod-eq_of_lt {n = n} {m = 2 * h} (omega arith))
signed-wrap h (negsuc n) p = ground (arith, mod-eq_of_lt {n = n} {m = 2 * h} (omega arith))

pub in_range→InRange : (h : ℕ) (v : ℤ) → in_range h v ≡ true → InRange h v
in_range→InRange h (pos n) e = ground arith
in_range→InRange h (negsuc n) e = ground arith
