-- ===== src/App/Accounts/Reload.antt =====
-- src/app/accounts.hpp: what a registration wrote, the next start of the servers reads.
use hovorun.Prelude.{
  Option-cases, if_elim, All, All-append, ℕ, ◌≡◌, refl, sym, ap, ◌∙◌, inl, inr, Bool, true, false,
  List, [], ◌∷◌, ◌++◌, map, append_assoc, append-nil, flatten,
}
use hovorun.App.Accounts.{
  AccountStore, is_blank, LoginResult, Accounts, add, find, is_space, words, pairs, add_all, load,
  line, may_register, register, login,
}

-- A word that operator>> reads whole.
pub record IsWord (w : List ℕ) : Type 0 where
  pub some_letter : is_blank w ≡ false
  pub no_space : All (λ c. is_space c ≡ false) w

abbrev pub IsEntry : List ℕ × List ℕ → Type 0
IsEntry e = IsWord e.0 × IsWord e.1

words-word :
    (w u : List ℕ) (c : ℕ) (s : List ℕ)
    → All (λ c. is_space c ≡ false) u
    → words w (u ++ c ∷ s) ≡ words (w ++ u) (c ∷ s)
unfolding words
words-word w [] c s h = rw (append-nil w) refl
words-word w (b ∷ u) c s h =
    rw (h.0, words)
      (words-word (w ++ b ∷ []) u c s h.1 ∙ ap (λ x. words x (c ∷ s)) (append_assoc w (b ∷ []) u))

words-space :
    (w : List ℕ) (c : ℕ) (s : List ℕ)
    → is_blank w ≡ false
    → is_space c ≡ true
    → words w (c ∷ s) ≡ w ∷ words [] s
unfolding words
words-space w c s h e = rw (h, e, words) refl

words-line :
    (u p s : List ℕ) → IsWord u → IsWord p → words [] (line (u, p) ++ s) ≡ u ∷ p ∷ words [] s
unfolding line
words-line u p s a b =
    let rest = p ++ (10 ∷ s) in
    ap (words []) (
      append_assoc u (32 ∷ (p ++ (10 ∷ []))) s
      ∙ ap (λ x. u ++ (32 ∷ x)) (append_assoc p (10 ∷ []) s))
    ∙ words-word [] u 32 rest a.no_space
    ∙ words-space u 32 rest a.some_letter refl
    ∙ ap (◌∷◌ u) (words-word [] p 10 s b.no_space ∙ words-space p 10 s b.some_letter refl)

-- The file of some accounts.
abbrev pub print : List (List ℕ × List ℕ) → List ℕ
print es = flatten (map line es)

-- Reading the lines of some accounts gives back their names and passwords.
pub pairs-print : (es : List (List ℕ × List ℕ)) → All IsEntry es → pairs (words [] (print es)) ≡ es
unfolding pairs flatten
pairs-print [] h = unfold words in refl
pairs-print ((u, p) ∷ es) h =
    ap pairs (words-line u p (print es) h.0.0 h.0.1) ∙ ap (◌∷◌ (u, p)) (pairs-print es h.1)

-- The store and its file agree: the file has the lines of some entries, of which the accounts were made.
pub record IsStored (s : AccountStore) : Type 0 where
  pub entries : List (List ℕ × List ℕ)
  pub are_words : All IsEntry entries
  pub printed : s.file ≡ print entries
  pub added : s.accounts ≡ add_all entries []

add_all-append :
    (es fs : List (List ℕ × List ℕ)) (accounts : Accounts)
    → add_all (es ++ fs) accounts ≡ add_all fs (add_all es accounts)
unfolding add_all
add_all-append [] fs accounts = refl
add_all-append ((u, p) ∷ es) fs accounts = add_all-append es fs (add u p accounts)

print-append : (es fs : List (List ℕ × List ℕ)) → print (es ++ fs) ≡ print es ++ print fs
unfolding flatten
print-append [] fs = refl
print-append (e ∷ es) fs =
    ap (◌++◌ (line e)) (print-append es fs) ∙ sym (append_assoc (line e) (print es) (print fs))

register-IsStored :
    (username password : List ℕ) (s : AccountStore)
    → IsWord username
    → IsWord password
    → IsStored s
    → IsStored (register username password s)
unfolding add_all flatten
register-IsStored username password s u p h = record {
  entries = h.entries ++ (username, password) ∷ [];
  are_words = All-append IsEntry h.entries ((username, password) ∷ []) h.are_words ((u, p), tt);
  printed =
      ap (λ x. x ++ line (username, password)) h.printed
      ∙ ap (◌++◌ (print h.entries)) (sym (append-nil (line (username, password))))
      ∙ sym (print-append h.entries ((username, password) ∷ []));
  added =
      ap (add username password) h.added
      ∙ sym (add_all-append h.entries ((username, password) ∷ []) []);
}

login-IsStored :
    (username password : List ℕ) (s : AccountStore)
    → IsWord username
    → IsWord password
    → IsStored s
    → IsStored (login username password s).1
unfolding login
login-IsStored username password s u p h = elim (Option-cases (find username s)) [
  | inr (account, e) ↦ rw (e, login) h
  | inl e ↦
      rw (e, login)
        (if_elim (λ (r : LoginResult × AccountStore). IsStored r.1)
          (may_register username password s) (λ _. register-IsStored username password s u p h)
          (λ _. h))
]

load-accounts :
    (auto_register : Bool) (s : AccountStore)
    → IsStored s
    → (load auto_register s.file).accounts ≡ s.accounts
unfolding load
load-accounts auto_register s h =
    ap (λ file. add_all (pairs (words [] file)) []) h.printed
    ∙ ap (λ es. add_all es []) (pairs-print h.entries h.are_words)
    ∙ sym h.added

-- After a login, registering or not, a restart that loads the file has the accounts that the store
-- has, with their indices, if the store and its file agreed and the name and the password are words:
-- not empty and without whitespace.
pub load-login :
    (auto_register : Bool) (username password : List ℕ) (s : AccountStore)
    → IsWord username
    → IsWord password
    → IsStored s
    → (load auto_register (login username password s).1.file).accounts
      ≡ (login username password s).1.accounts
load-login auto_register username password s u p h =
    load-accounts auto_register (login username password s).1
      (login-IsStored username password s u p h)
