-- ===== src/Containers/TextSet.antt =====
-- std::set of strings, in increasing order of their bytes.
use hovorun.Prelude.{
  ltb, ◌==◌, if◌then◌else◌, Bool-cases, ℕ, ◌≡◌, inl, inr, Bool, true, false, not, ◌&&◌, ◌||◌, List,
  [], ◌∷◌, arith,
}
use hovorun.Containers.TextMap.{same_text, same_text_eq}

abbrev pub TextSet : Type 0
TextSet = List (List ℕ)

-- std::string's <
unfoldable pub text_ltb : List ℕ → List ℕ → Bool
text_ltb xs [] = false
text_ltb [] (y ∷ ys) = true
text_ltb (x ∷ xs) (y ∷ ys) = ltb x y || x == y && text_ltb xs ys

unfoldable pub contains : List ℕ → TextSet → Bool
unfolding same_text
contains k [] = false
contains k (j ∷ s) = same_text k j || contains k s

unfoldable pub insert : List ℕ → TextSet → TextSet
unfolding same_text text_ltb
insert k [] = k ∷ []
insert k (j ∷ s) =
    let rest = insert k s in
    if same_text k j then j ∷ s else if text_ltb k j then k ∷ j ∷ s else j ∷ rest

unfoldable pub erase : List ℕ → TextSet → TextSet
unfolding same_text
erase k [] = []
erase k (j ∷ s) = let rest = erase k s in if same_text k j then rest else j ∷ rest

pub contains-insert :
    (k j : List ℕ) (s : TextSet) → contains j (insert k s) ≡ (same_text j k || contains j s)
unfolding contains insert
contains-insert k j [] = ground arith
contains-insert k j (i ∷ s) =
    let rest = contains-insert k j s in
    elim (Bool-cases (same_text k i)) [
      | inl e ↦ let same : k ≡ i = same_text_eq k i e in rw (e) (rw (same) (ground arith))
      | inr e ↦ rw (e) (ground arith)
    ]

pub contains-erase :
    (k j : List ℕ) (s : TextSet) → contains j (erase k s) ≡ (not (same_text j k) && contains j s)
unfolding contains erase
contains-erase k j [] = ground arith
contains-erase k j (i ∷ s) =
    let rest = contains-erase k j s in
    elim (Bool-cases (same_text k i)) [
      | inl e ↦ let same : k ≡ i = same_text_eq k i e in rw (e, rest) (rw (same) (ground arith))
      | inr e ↦
          let apart : same_text j k ≡ true → same_text j i ≡ false =
            λ q. let same : j ≡ k = same_text_eq j k q in rw same e in
          rw (e) (ground arith)
    ]
