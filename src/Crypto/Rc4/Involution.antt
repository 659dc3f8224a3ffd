-- ===== src/Crypto/Rc4/Involution.antt =====
-- src/crypto/rc4.hpp: the cipher undoes itself under the same key.
use mathlib.Core.Path.{ap₂}
use hovorun.Prelude.{length, get_or, ℕ, suc, ◌+◌, ◌%◌, ◌≡◌, refl, ap, List, [], ◌∷◌}
use hovorun.Crypto.Xor.{xor_cancel}
use hovorun.Crypto.Rc4.{swap, schedule, rc4_apply, apply_loop}

apply_loop-apply_loop :
    (i j : ℕ) (s bytes : List ℕ) → apply_loop i j s (apply_loop i j s bytes) ≡ bytes
unfolding apply_loop
apply_loop-apply_loop i j s [] = refl
apply_loop-apply_loop i j s (byte ∷ bytes) =
    let i' = (i + 1) % 256 in
    let j' = (j + get_or s i' 0) % 256 in
    ap₂ ◌∷◌ (xor_cancel byte _) (apply_loop-apply_loop i' j' (swap i' j' s) bytes)

-- Applied twice under one key, as by the sender and the receiver of a message, the cipher gives back
-- the message.
pub rc4_apply-rc4_apply : (key bytes : List ℕ) → rc4_apply key (rc4_apply key bytes) ≡ bytes
unfolding rc4_apply
rc4_apply-rc4_apply key bytes = apply_loop-apply_loop 0 0 (schedule key) bytes

length-apply_loop : (i j : ℕ) (s bytes : List ℕ) → length (apply_loop i j s bytes) ≡ length bytes
unfolding apply_loop
length-apply_loop i j s [] = refl
length-apply_loop i j s (byte ∷ bytes) =
    let i' = (i + 1) % 256 in
    let j' = (j + get_or s i' 0) % 256 in ap suc (length-apply_loop i' j' (swap i' j' s) bytes)

pub length-rc4_apply : (key bytes : List ℕ) → length (rc4_apply key bytes) ≡ length bytes
unfolding rc4_apply
length-rc4_apply key bytes = length-apply_loop 0 0 (schedule key) bytes
