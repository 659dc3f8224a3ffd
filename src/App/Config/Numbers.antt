-- ===== src/App/Config/Numbers.antt =====
-- src/app/config.hpp: the numbers of the file.
use hovorun.Prelude.{
  ltb, if◌then◌else◌, Bool-cases, ℕ, zero, suc, ◌+◌, ◌-◌, ◌*◌, ◌/◌, ◌%◌, ◌^◌, ◌<◌, ◌≡◌, refl, ap,
  ◌∙◌, inl, inr, true, false, none, some, List, [], ◌∷◌, arith,
}
use hovorun.Containers.TextMap
use hovorun.Containers.TextMap.{TextMap, same_text_refl}
use hovorun.App.Config.{is_blank, is_digit, digits_from, from_chars, get, get_number}

-- The decimal digits of `n` before `text`, with fuel.
digits : ℕ → ℕ → List ℕ → List ℕ
digits zero n text = text
digits (suc fuel) n text =
    let rest = digits fuel (n / 10) ((48 + n % 10) ∷ text) in
    if ltb n 10 then (48 + n) ∷ text else rest

-- The text of a number, as it is printed.
pub decimal : ℕ → List ℕ
unfolding digits
decimal n = digits (suc n) n []

digits_from-digit :
    (m d : ℕ) (text : List ℕ)
    → d < 10
    → digits_from m ((48 + d) ∷ text) ≡ digits_from (m * 10 + d) text
unfolding digits_from
digits_from-digit m d text h =
    let digit : is_digit (48 + d) ≡ true = ground arith in
    let next : m * 10 + (48 + d - 48) ≡ m * 10 + d = omega arith in rw (digit, next) refl

digits_from-digits :
    (fuel n : ℕ) (text : List ℕ)
    → n < fuel
    → digits_from 0 (digits fuel n text) ≡ digits_from n text
unfolding digits
digits_from-digits zero n text h = absurd (omega arith)
digits_from-digits (suc fuel) n text h = elim (Bool-cases (ltb n 10)) [
  | inl q ↦
      let same : 0 * 10 + n ≡ n = omega arith in
      rw (q) (digits_from-digit 0 n text (ground arith) ∙ ap (λ m. digits_from m text) same)
  | inr q ↦
      let less : n / 10 < fuel = ground arith in
      let whole : n / 10 * 10 + n % 10 ≡ n = omega arith in
      rw (q) (
        digits_from-digits fuel (n / 10) ((48 + n % 10) ∷ text) less
        ∙ digits_from-digit (n / 10) (n % 10) text (omega arith)
        ∙ ap (λ m. digits_from m text) whole)
]

is_blank-digits : (fuel n : ℕ) (c : ℕ) (text : List ℕ) → is_blank (digits fuel n (c ∷ text)) ≡ false
unfolding digits
is_blank-digits zero n c text = refl
is_blank-digits (suc fuel) n c text = elim (Bool-cases (ltb n 10)) [
  | inl q ↦ rw (q) refl
  | inr q ↦ rw (q) (is_blank-digits fuel (n / 10) (48 + n % 10) (c ∷ text))
]

is_blank-decimal : (n : ℕ) → is_blank (decimal n) ≡ false
unfolding decimal digits
is_blank-decimal n = elim (Bool-cases (ltb n 10)) [
  | inl q ↦ rw (q) refl
  | inr q ↦ rw (q) (is_blank-digits n (n / 10) (48 + n % 10) [])
]

digits_from-decimal : (n : ℕ) → digits_from 0 (decimal n) ≡ some n
unfolding decimal digits_from
digits_from-decimal n = digits_from-digits (suc n) n [] (omega arith)

from_chars-decimal : (w n : ℕ) → from_chars w (decimal n) ≡ (if ltb n (2 ^ w) then some n else none)
unfolding from_chars
from_chars-decimal w n = rw (from_chars, is_blank-decimal n, digits_from-decimal n) refl

-- A number that is printed under `key` is read back if it is below 2^w, and gives the fallback if not.
pub get_number-decimal :
    (w : ℕ) (key : List ℕ) (n fallback : ℕ) (values : TextMap (List ℕ))
    → get_number w key fallback (TextMap.put key (decimal n) values)
      ≡ (if ltb n (2 ^ w) then n else fallback)
unfolding get_number get
get_number-decimal w key n fallback values =
    rw
      (
        get_number,
        get,
        TextMap.find-put key key (decimal n) values,
        same_text_refl key,
        from_chars-decimal w n,
      )
      (elim (Bool-cases (ltb n (2 ^ w))) [ inl q ↦ rw (q) refl | inr q ↦ rw (q) refl ])
