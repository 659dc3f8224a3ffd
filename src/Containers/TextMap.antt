-- ===== src/Containers/TextMap.antt =====
-- std::map with strings as keys. The servers only look up, write and erase in these, so that the order
-- of the entries plays no part. A string is the list of its bytes.
use hovorun.Prelude.{
  ◌==◌, if◌then◌else◌, Bool-cases, ℕ, ◌≡◌, refl, inl, inr, Bool, true, false, ◌&&◌, Option, none,
  some, List, [], ◌∷◌, ◌++◌, arith,
}

-- std::string's ==
unfoldable pub same_text : List ℕ → List ℕ → Bool
same_text [] [] = true
same_text [] (y ∷ ys) = false
same_text (x ∷ xs) [] = false
same_text (x ∷ xs) (y ∷ ys) = x == y && same_text xs ys

pub same_text_refl : (xs : List ℕ) → same_text xs xs ≡ true
unfolding same_text
same_text_refl [] = refl
same_text_refl (x ∷ xs) = ground (arith, same_text_refl xs)

pub same_text_eq : (xs ys : List ℕ) → same_text xs ys ≡ true → xs ≡ ys
unfolding same_text
same_text_eq [] [] h = refl
same_text_eq [] (y ∷ ys) h = cc
same_text_eq (x ∷ xs) [] h = cc
same_text_eq (x ∷ xs) (y ∷ ys) h = ground (arith, same_text_eq xs ys)

pub same_text_sym : (xs ys : List ℕ) → same_text xs ys ≡ same_text ys xs
unfolding same_text
same_text_sym [] [] = refl
same_text_sym [] (y ∷ ys) = refl
same_text_sym (x ∷ xs) [] = refl
same_text_sym (x ∷ xs) (y ∷ ys) = ground (arith, same_text_sym xs ys)

same_text-right : (j k i : List ℕ) → same_text k i ≡ true → same_text j i ≡ same_text j k
same_text-right j k i h = rw (same_text_eq k i h) refl

same_text-left :
    (j k i : List ℕ) → same_text k i ≡ false → same_text j k ≡ true → same_text j i ≡ false
same_text-left j k i h e = rw (same_text_eq j k e) h

abbrev pub TextMap {ℓ} : Type ℓ → Type ℓ
TextMap V = List (List ℕ × V)

module _ {ℓ} {V : Type ℓ} where
  unfoldable pub find : List ℕ → TextMap V → Option V
  unfolding same_text
  find k [] = none
  find k ((j, v) ∷ m) = if same_text k j then some v else find k m

  -- m[k] = v
  unfoldable pub put : List ℕ → V → TextMap V → TextMap V
  unfolding same_text
  put k v [] = (k, v) ∷ []
  put k v ((j, w) ∷ m) = let rest = put k v m in if same_text k j then (k, v) ∷ m else (j, w) ∷ rest

  unfoldable pub remove : List ℕ → TextMap V → TextMap V
  unfolding same_text
  remove k [] = []
  remove k ((j, w) ∷ m) = let rest = remove k m in if same_text k j then rest else (j, w) ∷ rest

  pub find-append_none :
      (k : List ℕ) (v : V) (m : TextMap V) → find k m ≡ none → find k (m ++ (k, v) ∷ []) ≡ some v
  unfolding find
  find-append_none k v [] e = rw (same_text_refl k) refl
  find-append_none k v ((j, w) ∷ m) e = elim (Bool-cases (same_text k j)) [
    | inl q ↦ let bad = rw (q) at e in cc
    | inr q ↦ rw (q) (find-append_none k v m (rw (q) at e))
  ]

  pub find-put :
      (k j : List ℕ) (v : V) (m : TextMap V)
      → find j (put k v m) ≡ (if same_text j k then some v else find j m)
  unfolding find put
  find-put k j v [] = refl
  find-put k j v ((i, w) ∷ m) = elim (Bool-cases (same_text k i)) [
    | inl e ↦ let same = same_text-right j k i e in rw (e, same) (ground arith)
    | inr e ↦
        let rest = find-put k j v m in
        let apart = same_text-left j k i e in rw (e, rest) (ground arith)
  ]

  pub find-remove :
      (k j : List ℕ) (m : TextMap V)
      → find j (remove k m) ≡ (if same_text j k then none else find j m)
  unfolding find remove
  find-remove k j [] = ground arith
  find-remove k j ((i, w) ∷ m) = elim (Bool-cases (same_text k i)) [
    | inl e ↦ let same = same_text-right j k i e in rw (e, same, find-remove k j m) (ground arith)
    | inr e ↦
        let rest = find-remove k j m in
        let apart = same_text-left j k i e in rw (e, rest) (ground arith)
  ]
