-- ===== src/Crypto/Rc4/Table.antt =====
-- src/crypto/rc4.hpp: the table stays a permutation of the bytes, so that the cipher maps bytes to bytes.
use mathlib.Core.List.Perm
use mathlib.Core.List.{Perm}
use hovorun.Prelude.{
  length, get_or, set, length-set, All, ℕ, zero, suc, ◌+◌, ◌%◌, ◌≤◌, ◌<◌, ◌≡◌, refl, ◌∙◌, List, [],
  ◌∷◌, arith,
}
use hovorun.Crypto.Rc4.{iota, swap, schedule, rc4_apply, schedule_loop, apply_loop}
use hovorun.Net.Bytes.{IsByte}
use hovorun.Crypto.Xor.{xor-lt_byte}

set-perm : (s : List ℕ) (i v : ℕ) → i < length s → Perm (get_or s i 0 ∷ set s i v) (v ∷ s)
set-perm [] i v h = absurd (omega arith)
set-perm (x ∷ s) zero v h = Perm.swap v x s
set-perm (x ∷ s) (suc i) v h =
    Perm.trans (Perm.swap x (get_or s i 0) (set s i v))
      (Perm.trans (Perm.cons x (set-perm s i v (omega arith))) (Perm.swap v x s))

get_or-set :
    (s : List ℕ) (i j : ℕ) → j < length s → get_or (set s i (get_or s j 0)) j 0 ≡ get_or s j 0
get_or-set [] i j h = absurd (omega arith)
get_or-set (x ∷ s) zero zero h = refl
get_or-set (x ∷ s) zero (suc j) h = refl
get_or-set (x ∷ s) (suc i) zero h = refl
get_or-set (x ∷ s) (suc i) (suc j) h = get_or-set s i j (omega arith)

-- `swap` permutes the table.
swap-perm : (i j : ℕ) (s : List ℕ) → i < length s → j < length s → Perm (swap i j s) s
unfolding swap
swap-perm i j s h g =
    let a = get_or s i 0 in
    let b = get_or s j 0 in
    let second : Perm (b ∷ set (set s i b) j a) (a ∷ set s i b) =
      rw (get_or-set s i j g) at (set-perm (set s i b) j a (rw (length-set s i b) g)) in
    Perm.cons_inv (Perm.trans second (set-perm s i b h))

length-swap : (i j : ℕ) (s : List ℕ) → length (swap i j s) ≡ length s
unfolding swap
length-swap i j s =
    length-set (set s i (get_or s j 0)) j (get_or s i 0) ∙ length-set s i (get_or s j 0)

schedule_loop-perm :
    (key : List ℕ) (n i j : ℕ) (s : List ℕ)
    → i + n ≤ 256
    → length s ≡ 256
    → Perm (schedule_loop key n i j s) s
unfolding schedule_loop
schedule_loop-perm key zero i j s h e = Perm.refl s
schedule_loop-perm key (suc n) i j s h e =
    let j' = (j + get_or s i 0 + get_or key (i % length key) 0) % 256 in
    Perm.trans
      (schedule_loop-perm key n (i + 1) j' (swap i j' s) (omega arith) (length-swap i j' s ∙ e))
      (swap-perm i j' s (omega arith) (omega arith))

-- Whatever the key, the schedule leaves each byte in the table once.
pub schedule-perm : (key : List ℕ) → Perm (schedule key) (iota 256 0)
unfolding schedule iota
schedule-perm key = schedule_loop-perm key 256 0 0 (iota 256 0) (omega arith) refl

get_or-IsByte : (s : List ℕ) (i : ℕ) → All IsByte s → IsByte (get_or s i 0)
get_or-IsByte [] i h = omega arith
get_or-IsByte (x ∷ s) zero h = h.0
get_or-IsByte (x ∷ s) (suc i) h = get_or-IsByte s i h.1

set-IsByte : (s : List ℕ) (i v : ℕ) → All IsByte s → IsByte v → All IsByte (set s i v)
set-IsByte [] i v h g = tt
set-IsByte (x ∷ s) zero v h g = (g, h.1)
set-IsByte (x ∷ s) (suc i) v h g = (h.0, set-IsByte s i v h.1 g)

swap-IsByte : (i j : ℕ) (s : List ℕ) → All IsByte s → All IsByte (swap i j s)
unfolding swap
swap-IsByte i j s h =
    set-IsByte _ j _ (set-IsByte s i _ h (get_or-IsByte s j h)) (get_or-IsByte s i h)

iota-IsByte : (n i : ℕ) → All IsByte (iota n i)
unfolding iota
iota-IsByte zero i = tt
iota-IsByte (suc n) i = (omega arith, iota-IsByte n (i + 1))

schedule_loop-IsByte :
    (key : List ℕ) (n i j : ℕ) (s : List ℕ) → All IsByte s → All IsByte (schedule_loop key n i j s)
unfolding schedule_loop
schedule_loop-IsByte key zero i j s h = h
schedule_loop-IsByte key (suc n) i j s h =
    let j' = (j + get_or s i 0 + get_or key (i % length key) 0) % 256 in
    schedule_loop-IsByte key n (i + 1) j' (swap i j' s) (swap-IsByte i j' s h)

apply_loop-IsByte :
    (bytes : List ℕ) (i j : ℕ) (s : List ℕ)
    → All IsByte s
    → All IsByte bytes
    → All IsByte (apply_loop i j s bytes)
unfolding apply_loop
apply_loop-IsByte [] i j s h g = tt
apply_loop-IsByte (byte ∷ bytes) i j s h g =
    let i' = (i + 1) % 256 in
    let j' = (j + get_or s i' 0) % 256 in
    let s' = swap i' j' s in
    let h' : All IsByte s' = swap-IsByte i' j' s h in
    (xor-lt_byte byte _ g.0 (get_or-IsByte s' _ h'), apply_loop-IsByte bytes i' j' s' h' g.1)

schedule-IsByte : (key : List ℕ) → All IsByte (schedule key)
unfolding schedule
schedule-IsByte key = schedule_loop-IsByte key 256 0 0 (iota 256 0) (iota-IsByte 256 0)

rc4_apply_lem : (key bytes : List ℕ) → rc4_apply key bytes ≡ apply_loop 0 0 (schedule key) bytes
unfolding rc4_apply
rc4_apply_lem key bytes = refl

-- The cipher maps bytes to bytes.
pub rc4_apply-IsByte : (key bytes : List ℕ) → All IsByte bytes → All IsByte (rc4_apply key bytes)
rc4_apply-IsByte key bytes h =
    rw (rc4_apply_lem key bytes)
      (apply_loop-IsByte bytes 0 0 (schedule key) (schedule-IsByte key) h)
