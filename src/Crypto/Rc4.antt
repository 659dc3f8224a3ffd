-- ===== src/Crypto/Rc4.antt =====
-- src/crypto/rc4.hpp, rc4_apply. The table is a list of 256 bytes; each message starts afresh. A key of
-- no bytes, on which the source divides by zero, is left aside.
pub mod Involution
pub mod Stream
pub mod Table
mod Tests
use hovorun.Prelude.{length, get_or, set, ℕ, zero, suc, ◌+◌, ◌%◌, bit_xor, List, [], ◌∷◌}

-- for (i = 0; i < 256; ++i) s[i] = i, from `i` on for `n` rounds
pub iota : ℕ → ℕ → List ℕ
iota zero i = []
iota (suc n) i = i % 256 ∷ iota n (i + 1)

-- std::swap(s[i], s[j])
pub swap : ℕ → ℕ → List ℕ → List ℕ
swap i j s = set (set s i (get_or s j 0)) j (get_or s i 0)

-- The key schedule: `n` rounds are left, `i` is the round and `j` the second index.
schedule_loop : List ℕ → ℕ → ℕ → ℕ → List ℕ → List ℕ
unfolding swap
schedule_loop key zero i j s = s
schedule_loop key (suc n) i j s =
    let j' = (j + get_or s i 0 + get_or key (i % length key) 0) % 256 in
    schedule_loop key n (i + 1) j' (swap i j' s)

pub schedule : List ℕ → List ℕ
schedule key = schedule_loop key 256 0 0 (iota 256 0)

-- The loop over the bytes of the message, on the indices `i` and `j` and the table.
apply_loop : ℕ → ℕ → List ℕ → List ℕ → List ℕ
unfolding swap
apply_loop i j s [] = []
apply_loop i j s (byte ∷ bytes) =
    let i' = (i + 1) % 256 in
    let j' = (j + get_or s i' 0) % 256 in
    let s' = swap i' j' s in
    bit_xor byte (get_or s' ((get_or s' i' 0 + get_or s' j' 0) % 256) 0) ∷ apply_loop i' j' s' bytes

unfoldable pub rc4_apply : List ℕ → List ℕ → List ℕ
unfolding schedule schedule_loop iota apply_loop
rc4_apply key bytes = apply_loop 0 0 (schedule key) bytes
