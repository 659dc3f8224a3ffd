-- ===== src/Net/Message/Decodes.antt =====
-- Reads that undo a write: `Decodes m bytes a` says that `m` takes exactly `bytes` off the front of
-- whatever stands there, and returns `a`.
use hovorun.Prelude.{
  ltb-false, length, length-append, take-append, drop-append, ℤ, wrap, signed, InRange, wrap-lt,
  signed-wrap, ℕ, ◌*◌, ◌^◌, ◌<◌, ◌≡◌, refl, ◌∙◌, ◌⊎◌, inl, inr, List, [], ◌++◌, append_assoc, arith,
}
use hovorun.Net.Bytes.{le_bytes, of_le, length-le_bytes, of_le-le_bytes}
use hovorun.Net.Message.Reader.{
  Error, Result, Reads, pure, ◌>>=◌, take_bytes, read_word, read_int, ok, err,
}

pub record Decodes {ℓ} {A : Type ℓ} (m : Reads A) (bytes : List ℕ) (a : A) : Type ℓ where
  pub at : (rest : List ℕ) → m (bytes ++ rest) ≡ ok (a, rest)

pub >>=-ok {ℓ κ} :
    {A : Type ℓ} {B : Type κ} (m : Reads A) (f : A → Reads B) (r : List ℕ) {a : A} {r' : List ℕ}
    → m r ≡ ok (a, r')
    → (m >>= f) r ≡ f a r'
unfolding ◌>>=◌
>>=-ok m f r e = rw (e, ◌>>=◌)

pub Decodes-pure {ℓ} : {A : Type ℓ} (a : A) → Decodes (pure a) [] a
unfolding pure
Decodes-pure a = record { at = λ rest. refl }

module _ {ℓ κ} {A : Type ℓ} {B : Type κ} where
  pub Decodes-bind :
      {m : Reads A} (f : A → Reads B) {xs ys : List ℕ} {a : A} {b : B}
      → Decodes m xs a
      → Decodes (f a) ys b
      → Decodes (m >>= f) (xs ++ ys) b
  Decodes-bind {m} f {xs} {ys} h k = record {
    at = λ rest. rw (append_assoc xs ys rest) (>>=-ok m f _ (h.at (ys ++ rest)) ∙ k.at rest);
  }

  pub Decodes-last :
      {m : Reads A} (f : A → B) {xs : List ℕ} {a : A}
      → Decodes m xs a
      → Decodes (m >>= λ x. pure (f x)) xs (f a)
  Decodes-last {m} f h = record {
    at = λ rest. >>=-ok m (λ x. pure (f x)) _ (h.at rest) ∙ unfold pure in refl;
  }

pub Decodes-take_bytes : (n : ℕ) (xs : List ℕ) → length xs ≡ n → Decodes (take_bytes n) xs xs
unfolding take_bytes
Decodes-take_bytes n xs e = record {
  at = λ rest. rw (← e) (
      rw (
        ltb-false (length (xs ++ rest)) (length xs) (omega (arith, length-append xs rest)),
        take-append xs rest,
        drop-append xs rest,
      ));
}

pub Decodes-read_word : (k v : ℕ) → v < 256 ^ k → Decodes (read_word k) (le_bytes k v) v
unfolding read_word
Decodes-read_word k v h =
    rw (of_le-le_bytes k v h) at
      (Decodes-last of_le (Decodes-take_bytes k (le_bytes k v) (length-le_bytes k v)))

pub Decodes-read_int :
    (h k : ℕ) (v : ℤ)
    → 0 < h
    → 2 * h ≡ 256 ^ k
    → InRange h v
    → Decodes (read_int h k) (le_bytes k (wrap h v)) v
unfolding read_int
Decodes-read_int h k v p e r =
    rw (signed-wrap h v r) at
      (Decodes-last (signed h) (Decodes-read_word k (wrap h v) (rw (← e) (wrap-lt h v p))))

pub Result-cases {ℓ} :
    {A : Type ℓ} (r : Result A) → ((e : Error) × (r ≡ err e)) ⊎ ((a : A) × (r ≡ ok a))
Result-cases (err e) = inl (e, refl)
Result-cases (ok a) = inr (a, refl)
