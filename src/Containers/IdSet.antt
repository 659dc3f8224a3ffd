-- ===== src/Containers/IdSet.antt =====
-- std::set of numbers, in increasing order.
use hovorun.Prelude.{
  ltb, ◌==◌, if◌then◌else◌, ℕ, suc, ◌≤◌, ◌<◌, ◌≡◌, refl, Bool, false, not, ◌&&◌, ◌||◌, List, [],
  ◌∷◌, arith,
}

abbrev pub IdSet : Type 0
IdSet = List ℕ

unfoldable pub contains : ℕ → IdSet → Bool
contains k [] = false
contains k (j ∷ s) = k == j || contains k s

unfoldable pub insert : ℕ → IdSet → IdSet
insert k [] = k ∷ []
insert k (j ∷ s) = if k == j then j ∷ s else if ltb k j then k ∷ j ∷ s else j ∷ insert k s

unfoldable pub erase : ℕ → IdSet → IdSet
erase k [] = []
erase k (j ∷ s) = let rest = erase k s in if k == j then rest else j ∷ rest

pub contains-insert : (k j : ℕ) (s : IdSet) → contains j (insert k s) ≡ (j == k || contains j s)
unfolding contains insert
contains-insert k j [] = ground arith
contains-insert k j (i ∷ s) = ground (arith, contains-insert k j s)

pub contains-erase : (k j : ℕ) (s : IdSet) → contains j (erase k s) ≡ (not (j == k) && contains j s)
unfolding contains erase
contains-erase k j [] = ground arith
contains-erase k j (i ∷ s) = ground (arith, contains-erase k j s)

-- Increasing, and all of it above `n`.
abbrev pub Above : ℕ → IdSet → Type 0
Above n [] = Unit {0}
Above n (j ∷ s) = (n ≤ j) × Above (suc j) s

pub Above-mono : (m n : ℕ) (s : IdSet) → m ≤ n → Above n s → Above m s
Above-mono m n [] h a = tt
Above-mono m n (j ∷ s) h a = (omega arith, a.1)

pub insert-Above : (n k : ℕ) (s : IdSet) → n ≤ k → Above n s → Above n (insert k s)
unfolding insert
insert-Above n k [] h a = (h, tt)
insert-Above n k (j ∷ s) h a =
    ground (arith, Above-mono (suc k) (suc j) s, insert-Above (suc j) k s)

pub erase-Above : (n k : ℕ) (s : IdSet) → Above n s → Above n (erase k s)
unfolding erase
erase-Above n k [] a = tt
erase-Above n k (j ∷ s) a =
    ground (arith, erase-Above (suc j) k s, Above-mono n (suc j) (erase k s))

-- Nothing below the bound of the set is in it.
pub contains-below : (n k : ℕ) (s : IdSet) → Above n s → k < n → contains k s ≡ false
unfolding contains
contains-below n k [] a h = refl
contains-below n k (j ∷ s) a h = ground (arith, contains-below (suc j) k s)
