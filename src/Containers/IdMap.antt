-- ===== src/Containers/IdMap.antt =====
-- std::map from numbers, in increasing order of the keys.
use mathlib.Core.Option
use mathlib.Core.Path.{subst}
use hovorun.Prelude.{
  ltb, ◌==◌, if◌then◌else◌, Bool-cases, if_elim, All, ℕ, ◌≡◌, refl, sym, inl, inr, Bool, true,
  false, not, ◌&&◌, ◌||◌, Option, none, some, List, [], ◌∷◌, arith,
}

abbrev pub IdMap {ℓ} : Type ℓ → Type ℓ
IdMap V = List (ℕ × V)

module _ {ℓ} {V : Type ℓ} where
  unfoldable pub find : ℕ → IdMap V → Option V
  find k [] = none
  find k ((j, v) ∷ m) = if k == j then some v else find k m

  -- m[k] = v
  unfoldable pub put : ℕ → V → IdMap V → IdMap V
  put k v [] = (k, v) ∷ []
  put k v ((j, w) ∷ m) =
      if k == j then (k, v) ∷ m else if ltb k j then (k, v) ∷ (j, w) ∷ m else (j, w) ∷ put k v m

  unfoldable pub remove : ℕ → IdMap V → IdMap V
  remove k [] = []
  remove k ((j, w) ∷ m) = let rest = remove k m in if k == j then rest else (j, w) ∷ rest

  -- A change of the value at a key.
  unfoldable pub adjust : ℕ → (V → V) → IdMap V → IdMap V
  adjust k f [] = []
  adjust k f ((j, w) ∷ m) = (j, if k == j then f w else w) ∷ adjust k f m

  pub find-put :
      (k j : ℕ) (v : V) (m : IdMap V) → find j (put k v m) ≡ (if j == k then some v else find j m)
  unfolding find put
  find-put k j v [] = refl
  find-put k j v ((i, w) ∷ m) = ground (arith, find-put k j v m)

  pub find-remove :
      (k j : ℕ) (m : IdMap V) → find j (remove k m) ≡ (if j == k then none else find j m)
  unfolding find remove
  find-remove k j [] = ground arith
  find-remove k j ((i, w) ∷ m) = ground (arith, find-remove k j m)

  pub find-adjust :
      (k j : ℕ) (f : V → V) (m : IdMap V)
      → find j (adjust k f m) ≡ (if j == k then Option.map f (find j m) else find j m)
  unfolding find adjust
  find-adjust k j f [] = ground arith
  find-adjust k j f ((i, w) ∷ m) = ground (arith, find-adjust k j f m)

  unfoldable pub has : ℕ → IdMap V → Bool
  has k m = elim (find k m) [ none ↦ false | some v ↦ true ]

  pub has-put : (k j : ℕ) (v : V) (m : IdMap V) → has j (put k v m) ≡ (j == k || has j m)
  unfolding has
  has-put k j v m = ground (arith, find-put k j v m)

  pub has-remove : (k j : ℕ) (m : IdMap V) → has j (remove k m) ≡ (not (j == k) && has j m)
  unfolding has
  has-remove k j m = ground (arith, find-remove k j m)

  -- A write at a key that is there adds none.
  pub has-put_self : (k j : ℕ) (v : V) (m : IdMap V) → has k m ≡ true → has j (put k v m) ≡ has j m
  has-put_self k j v m h = elim (Bool-cases (j == k)) [
    | inl e ↦ let same : j ≡ k = ground arith in rw (has-put k j v m, e) (rw same (sym h))
    | inr e ↦ rw (has-put k j v m, e)
  ]

  -- A write of a value that looks as the old one is not seen.
  pub find-put_view {κ} :
      {B : Type κ} (view : Option V → B) (k : ℕ) (old v : V) (m : IdMap V) (j : ℕ)
      → find k m ≡ some old
      → view (some v) ≡ view (some old)
      → view (find j (put k v m)) ≡ view (find j m)
  find-put_view view k old v m j e same = elim (Bool-cases (j == k)) [
    | inl q ↦ let here : j ≡ k = ground arith in rw (find-put k j v m, q, here, e) same
    | inr q ↦ rw (find-put k j v m, q) refl
  ]

  -- What holds of every value holds of the one found, and after writes and removals.
  pub find-All {κ} :
      (P : V → Type κ) (k : ℕ) (v : V) (m : IdMap V)
      → All (λ (e : ℕ × V). P e.1) m
      → find k m ≡ some v
      → P v
  unfolding find
  find-All P k v [] h e = cc
  find-All P k v ((j, w) ∷ m) h e = elim (Bool-cases (k == j)) [
    | inl q ↦
        let here : some w ≡ some v = rw (find, q) at e in let same : w ≡ v = cc in subst P same h.0
    | inr q ↦ find-All P k v m h.1 (rw (find, q) at e)
  ]

  pub put-All {κ} :
      (P : V → Type κ) (k : ℕ) (v : V) (m : IdMap V)
      → All (λ (e : ℕ × V). P e.1) m
      → P v
      → All (λ (e : ℕ × V). P e.1) (put k v m)
  unfolding put
  put-All P k v [] h p = (p, tt)
  put-All P k v ((j, w) ∷ m) h p =
      let All_values : IdMap V → Type κ = λ x. All (λ (e : ℕ × V). P e.1) x in
      if_elim All_values (k == j) (λ q. (p, h.1))
        (λ q. if_elim All_values (ltb k j) (λ c. (p, h)) (λ c. (h.0, put-All P k v m h.1 p)))

  pub remove-All {κ} :
      (P : V → Type κ) (k : ℕ) (m : IdMap V)
      → All (λ (e : ℕ × V). P e.1) m
      → All (λ (e : ℕ × V). P e.1) (remove k m)
  unfolding remove
  remove-All P k [] h = tt
  remove-All P k ((j, w) ∷ m) h =
      let All_values : IdMap V → Type κ = λ x. All (λ (e : ℕ × V). P e.1) x in
      let rest = remove-All P k m h.1 in if_elim All_values (k == j) (λ q. rest) (λ q. (h.0, rest))
