-- ===== src/Crypto/Rc4/Tests.antt =====
-- src/crypto/rc4.hpp: the cipher on small inputs, and the theorems at them.
use hovorun.Prelude.{get_or, length, bit_xor, ℕ, ◌<◌, ◌≡◌, refl, List, [], ◌∷◌}
use hovorun.Crypto.Rc4.{iota, swap, schedule, rc4_apply, schedule_loop, apply_loop}
use hovorun.Crypto.Rc4.Stream.{key_stream, rc4_apply-key_stream}

-- "Key"
abbrev some_key : List ℕ
some_key = 0x4B ∷ 0x65 ∷ 0x79 ∷ []

-- "Plaintext"
abbrev plain : List ℕ
plain = 0x50 ∷ 0x6C ∷ 0x61 ∷ 0x69 ∷ 0x6E ∷ 0x74 ∷ 0x65 ∷ 0x78 ∷ 0x74 ∷ []

known_cipher :
    rc4_apply some_key plain ≡ 0xBB ∷ 0xF3 ∷ 0x16 ∷ 0xE8 ∷ 0xD9 ∷ 0x40 ∷ 0xAF ∷ 0x0A ∷ 0xD3 ∷ []
unfolding rc4_apply schedule schedule_loop apply_loop swap iota
known_cipher = refl

rc4_apply-key_stream_example :
    (length (rc4_apply some_key plain) ≡ length plain)
    × ((k : ℕ)
        → k < length plain
        → get_or (rc4_apply some_key plain) k 0
          ≡ bit_xor (get_or plain k 0) (key_stream some_key k))
rc4_apply-key_stream_example = rc4_apply-key_stream some_key plain
