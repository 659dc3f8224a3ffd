-- ===== src/Crypto/Rc4/Stream.antt =====
-- src/crypto/rc4.hpp: the cipher adds the key stream of RC4, which is written here from the definition
-- of the cipher: the state after a number of rounds, with the table as a function.
use hovorun.Prelude.{
  ◌==◌, if◌then◌else◌, length, get_or, set, get_or-set, length-set, ℕ, zero, suc, ◌+◌, ◌%◌, ◌≤◌,
  ◌<◌, ◌≡◌, refl, sym, ap, ◌∙◌, bit_xor, List, [], ◌∷◌, arith,
}
use mathlib.Core.Path.{subst}
use hovorun.Crypto.Rc4.{iota, swap, schedule, rc4_apply, schedule_loop, apply_loop}
use hovorun.Crypto.Rc4.Involution.{length-rc4_apply}

-- A table and the second index.
abbrev pub StreamState : Type 0
StreamState = (ℕ → ℕ) × ℕ

-- The table with the entries at `i` and `j` exchanged.
abbrev pub exchanged : ℕ → ℕ → (ℕ → ℕ) → ℕ → ℕ
exchanged i j f k = if k == j then f i else if k == i then f j else f k

-- A round on the entry `i`, which moves the second index by that entry and by `more`.
abbrev pub round : ℕ → ℕ → StreamState → StreamState
round i more (f, j) = let j' = (j + f i + more) % 256 in (exchanged i j' f, j')

-- The state after `n` rounds of the key schedule, which start at the table of 0, 1, … 255.
unfoldable pub scheduled : List ℕ → ℕ → StreamState
scheduled key zero = (λ k. k, 0)
scheduled key (suc n) = round n (get_or key (n % length key) 0) (scheduled key n)

-- The state after `n` bytes of the stream.
unfoldable pub streamed : List ℕ → ℕ → StreamState
unfolding scheduled
streamed key zero = ((scheduled key 256).0, 0)
streamed key (suc n) = round (suc n % 256) 0 (streamed key n)

abbrev pub output : ℕ → StreamState → ℕ
output i (f, j) = f ((f i + f j) % 256)

-- The byte of the stream at place `n`.
unfoldable pub key_stream : List ℕ → ℕ → ℕ
unfolding streamed
key_stream key n = output (suc n % 256) (streamed key (suc n))

-- The list of 256 bytes that stands for a table.
record IsTable (s : List ℕ) (f : ℕ → ℕ) : Type 0 where
  size : length s ≡ 256
  entry : (k : ℕ) → k < 256 → get_or s k 0 ≡ f k

get_or-iota : (n i k : ℕ) → i + n ≤ 256 → k < n → get_or (iota n i) k 0 ≡ i + k
unfolding iota
get_or-iota zero i k h g = absurd (omega arith)
get_or-iota (suc n) i zero h g = omega arith
get_or-iota (suc n) i (suc k) h g =
    get_or-iota n (i + 1) k (omega arith) (omega arith) ∙ omega arith

length-iota : (n i : ℕ) → length (iota n i) ≡ n
unfolding iota
length-iota zero i = refl
length-iota (suc n) i = ap suc (length-iota n (i + 1))

swap-IsTable :
    (i j : ℕ) (s : List ℕ) (f : ℕ → ℕ)
    → i < 256
    → j < 256
    → IsTable s f
    → IsTable (swap i j s) (exchanged i j f)
unfolding swap
swap-IsTable i j s f hi hj t =
    let a = get_or s i 0 in
    let b = get_or s j 0 in
    let first = length-set s i b in
    let second = length-set (set s i b) j a in
    let size = t.size in
    record {
      size = omega arith;
      entry = λ k hk.
          let outer = get_or-set (set s i b) j a k 0 in
          let inner = get_or-set s i b k 0 in
          let at_i = t.entry i hi in
          let at_j = t.entry j hj in let at_k = t.entry k hk in ground arith;
    }

-- The table after a round, from lists and as a function.
round-IsTable :
    (i more j : ℕ) (s : List ℕ) (t : StreamState)
    → i < 256
    → j ≡ t.1
    → IsTable s t.0
    → (((j + get_or s i 0 + more) % 256) ≡ (round i more t).1)
      × IsTable (swap i ((j + get_or s i 0 + more) % 256) s) (round i more t).0
round-IsTable i more j s (f, j0) h e t =
    let at_i = t.entry i h in
    let same : (j + get_or s i 0 + more) % 256 ≡ (j0 + f i + more) % 256 =
      ap (λ m. (m + get_or s i 0 + more) % 256) e ∙ ap (λ m. (j0 + m + more) % 256) at_i in
    let moved = swap-IsTable i ((j0 + f i + more) % 256) s f h (omega arith) t in
    (same, rw (same) moved)

schedule_loop-IsTable :
    (key : List ℕ) (n i j : ℕ) (s : List ℕ)
    → i + n ≡ 256
    → j ≡ (scheduled key i).1
    → IsTable s (scheduled key i).0
    → IsTable (schedule_loop key n i j s) (scheduled key 256).0
unfolding schedule_loop scheduled
schedule_loop-IsTable key zero i j s h e t =
    let same : i ≡ 256 = omega arith in subst (λ m. IsTable s (scheduled key m).0) same t
schedule_loop-IsTable key (suc n) i j s h e t =
    let more = get_or key (i % length key) 0 in
    let next : suc i ≡ i + 1 = omega arith in
    let step = round-IsTable i more j s (scheduled key i) (omega arith) e t in
    let j' = (j + get_or s i 0 + more) % 256 in
    schedule_loop-IsTable key n (i + 1) j' (swap i j' s) (omega arith)
      (subst (λ m. j' ≡ (scheduled key m).1) next step.0)
      (subst (λ m. IsTable (swap i j' s) (scheduled key m).0) next step.1)

schedule-IsTable : (key : List ℕ) → IsTable (schedule key) (scheduled key 256).0
unfolding schedule scheduled
schedule-IsTable key = schedule_loop-IsTable key 256 0 0 (iota 256 0) refl refl (record {
  size = length-iota 256 0;
  entry = λ k h. get_or-iota 256 0 k (omega arith) h ∙ omega arith;
})

output_lem :
    (i j : ℕ) (s : List ℕ) (t : StreamState)
    → i < 256
    → j ≡ t.1
    → t.1 < 256
    → IsTable s t.0
    → get_or s ((get_or s i 0 + get_or s j 0) % 256) 0 ≡ output i t
output_lem i j s (f, j0) h e b t =
    let at_i = t.entry i h in
    let at_j : get_or s j 0 ≡ f j0 = ap (λ m. get_or s m 0) e ∙ t.entry j0 b in
    ap (λ m. get_or s ((m + get_or s j 0) % 256) 0) at_i
    ∙ ap (λ m. get_or s ((f i + m) % 256) 0) at_j
    ∙ t.entry ((f i + f j0) % 256) (omega arith)

-- The state before the next byte of the message, from that of `n` bytes.
stream_step :
    (key : List ℕ) (n i j : ℕ) (s : List ℕ)
    → i < 256
    → i ≡ suc n % 256
    → j ≡ (streamed key n).1
    → IsTable s (streamed key n).0
    → ((j + get_or s i 0) % 256 ≡ (streamed key (suc n)).1)
      × IsTable (swap i ((j + get_or s i 0) % 256) s) (streamed key (suc n)).0
unfolding streamed
stream_step key n i j s b index f t =
    let step = round-IsTable i 0 j s (streamed key n) b f t in
    let j' : ℕ = (j + get_or s i 0) % 256 in
    let plain : (j + get_or s i 0 + 0) % 256 ≡ j' = omega arith in
    (
      sym plain ∙ step.0 ∙ ap (λ m. (round m 0 (streamed key n)).1) index,
      subst (λ m. IsTable (swap i j' s) (round m 0 (streamed key n)).0) index
          (subst (λ m. IsTable (swap i m s) (round i 0 (streamed key n)).0) plain step.1),
    )

apply_loop-key_stream :
    (key bytes : List ℕ) (n k i j : ℕ) (s : List ℕ)
    → i ≡ n % 256
    → j ≡ (streamed key n).1
    → IsTable s (streamed key n).0
    → k < length bytes
    → get_or (apply_loop i j s bytes) k 0 ≡ bit_xor (get_or bytes k 0) (key_stream key (n + k))
unfolding apply_loop key_stream
apply_loop-key_stream key [] n k i j s e f t h = absurd (omega arith)
apply_loop-key_stream key (byte ∷ bytes) n zero i j s e f t h =
    let i' : ℕ = (i + 1) % 256 in
    let j' : ℕ = (j + get_or s i' 0) % 256 in
    let index : i' ≡ suc n % 256 = omega arith in
    let step = stream_step key n i' j s (omega arith) index f t in
    let small : (streamed key (suc n)).1 < 256 = rw (sym step.0) (omega arith) in
    let here : n ≡ n + 0 = omega arith in
    ap (bit_xor byte) (
      output_lem i' j' (swap i' j' s) (streamed key (suc n)) (omega arith) step.0 small step.1
      ∙ ap (λ m. output m (streamed key (suc n))) index
      ∙ ap (key_stream key) here)
apply_loop-key_stream key (byte ∷ bytes) n (suc k) i j s e f t h =
    let i' : ℕ = (i + 1) % 256 in
    let j' : ℕ = (j + get_or s i' 0) % 256 in
    let index : i' ≡ suc n % 256 = omega arith in
    let step = stream_step key n i' j s (omega arith) index f t in
    let next : suc n + k ≡ n + suc k = omega arith in
    apply_loop-key_stream key bytes (suc n) k i' j' (swap i' j' s) index step.0 step.1 (omega arith)
    ∙ ap (λ m. bit_xor (get_or bytes k 0) (key_stream key m)) next

-- The cipher changes no length, and combines each byte of the message with the byte of the key stream
-- of RC4 at its place: every message starts the stream afresh.
pub rc4_apply-key_stream :
    (key bytes : List ℕ)
    → (length (rc4_apply key bytes) ≡ length bytes)
      × ((k : ℕ)
          → k < length bytes
          → get_or (rc4_apply key bytes) k 0 ≡ bit_xor (get_or bytes k 0) (key_stream key k))
unfolding rc4_apply streamed
rc4_apply-key_stream key bytes = (
  length-rc4_apply key bytes,
  λ k h.
      apply_loop-key_stream key bytes 0 k 0 0 (schedule key) refl refl (schedule-IsTable key) h
      ∙ ap (λ m. bit_xor (get_or bytes k 0) (key_stream key m)) (omega arith),
)
