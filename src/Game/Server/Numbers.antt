-- ===== src/Game/Server/Numbers.antt =====
-- src/game/game_server.cpp, create_room: the loop over the room numbers ends, with a free one.
use hovorun.Prelude.{
  ◌==◌, Bool-cases, length, ℕ, zero, suc, ◌+◌, ◌-◌, ◌%◌, ◌^◌, ◌≤◌, ◌<◌, ◌≡◌, refl, ◌≢◌, ◌⊎◌, inl,
  inr, true, false, some, [], ◌∷◌, arith,
}
use hovorun.Containers.IdMap
use hovorun.Containers.IdMap.{IdMap}
use hovorun.Game.Server.Entry.{is_taken, next_number}

-- A number that the loop gives is free.
next_number-free :
    (rooms : IdMap ℕ) (fuel n m : ℕ) → next_number rooms fuel n ≡ some m → is_taken rooms m ≡ false
unfolding next_number
next_number-free rooms zero n m e = cc
next_number-free rooms (suc fuel) n m e = elim (Bool-cases (is_taken rooms n)) [
  | inl q ↦ next_number-free rooms fuel ((n + 1) % 2 ^ 16) m (rw (next_number, q) at e)
  | inr q ↦
      let here : some n ≡ some m = rw (next_number, q) at e in let same : n ≡ m = cc in rw⁻¹ same q
]

-- The loop ends where it is `d` steps before a free number and has more rounds than that.
next_number-ends :
    (rooms : IdMap ℕ) (fuel n d : ℕ)
    → d < fuel
    → n < 2 ^ 16
    → is_taken rooms ((n + d) % 2 ^ 16) ≡ false
    → (m : ℕ) × (next_number rooms fuel n ≡ some m)
unfolding next_number
next_number-ends rooms zero n d h b f = absurd (omega arith)
next_number-ends rooms (suc fuel) n zero h b f =
    let same : (n + 0) % 2 ^ 16 ≡ n = omega arith in
    let free : is_taken rooms n ≡ false = rw same at f in (n, rw (next_number, free) refl)
next_number-ends rooms (suc fuel) n (suc d) h b f = elim (Bool-cases (is_taken rooms n)) [
  | inr q ↦ (n, rw (next_number, q) refl)
  | inl q ↦
      let same : (n + suc d) % 2 ^ 16 ≡ ((n + 1) % 2 ^ 16 + d) % 2 ^ 16 = omega arith in
      let (m, e) =
        next_number-ends rooms fuel ((n + 1) % 2 ^ 16) d (omega arith) (omega arith)
          (rw same at f) in
      (m, rw (next_number, q) e)
]

length-remove_le : (k : ℕ) (m : IdMap ℕ) → length (IdMap.remove k m) ≤ length m
unfolding IdMap.remove
length-remove_le k [] = omega arith
length-remove_le k ((j, w) ∷ m) = ground (arith, length-remove_le k m)

length-remove_lt :
    (k : ℕ) (m : IdMap ℕ) → IdMap.has k m ≡ true → length (IdMap.remove k m) < length m
unfolding IdMap.remove IdMap.has IdMap.find
length-remove_lt k [] h = cc
length-remove_lt k ((j, w) ∷ m) h = ground (arith, length-remove_le k m, length-remove_lt k m)

-- A map that holds the numbers from 1 to `n` has `n` entries at least.
held_le-length :
    (n : ℕ) (m : IdMap ℕ) → ((k : ℕ) → 0 < k → k ≤ n → IdMap.has k m ≡ true) → n ≤ length m
held_le-length zero m h = omega arith
held_le-length (suc n) m h =
    let rest =
      held_le-length n (IdMap.remove (suc n) m)
        (λ k a b. let law = IdMap.has-remove (suc n) k m in let held = h k a in ground arith) in
    omega (arith, rest, length-remove_lt (suc n) m (h (suc n) (omega arith) (omega arith)))

first_free :
    (n : ℕ) (m : IdMap ℕ)
    → ((k : ℕ) → 0 < k → k ≤ n → IdMap.has k m ≡ true)
      ⊎ ((k : ℕ) × (0 < k) × (k ≤ n) × (IdMap.has k m ≡ false))
first_free zero m = inl (λ k a b. absurd (omega arith))
first_free (suc n) m = elim (first_free n m) [
  | inr (k, a, b, e) ↦ inr (k, a, omega arith, e)
  | inl h ↦ elim (Bool-cases (IdMap.has (suc n) m)) [
    | inr q ↦ inr (suc n, omega arith, omega arith, q)
    | inl q ↦ inl (λ k a b. elim (Bool-cases (k == suc n)) [
      | inl t ↦ let same : k ≡ suc n = ground arith in rw same q
      | inr t ↦ h k a (ground arith)
    ])
  ]
]

-- While fewer than 65,535 rooms are listed, the loop of create_room over the room numbers ends, from
-- whatever number it starts at, and the number that it ends with is not zero and not that of a room.
pub next_number-found :
    (rooms : IdMap ℕ) (n : ℕ)
    → length rooms < 2 ^ 16 - 1
    → n < 2 ^ 16
    → (m : ℕ) × (next_number rooms (2 ^ 16) n ≡ some m) × (m ≢ 0) × (IdMap.has m rooms ≡ false)
next_number-found rooms n h b = elim (first_free (length rooms + 1) rooms) [
  | inl all ↦ absurd (omega (arith, held_le-length (length rooms + 1) rooms all))
  | inr (k, positive, le, free) ↦
      let d = (k + 2 ^ 16 - n) % 2 ^ 16 in
      let same : (n + d) % 2 ^ 16 ≡ k = omega arith in
      let (m, e) = next_number-ends rooms (2 ^ 16) n d (omega arith) b (rw same (ground arith)) in
      let untaken = next_number-free rooms (2 ^ 16) n m e in (m, e, ground arith, ground arith)
]
