-- ===== src/App/Accounts/Logins.antt =====
-- src/app/accounts.hpp: which passwords a user logs in with.
use hovorun.Prelude.{
  if◌then◌else◌, Bool-cases, Option-cases, length, ℕ, ◌+◌, ◌%◌, ◌^◌, ◌≡◌, refl, sym, ap, ◌∙◌, inl,
  inr, Bool, true, false, none, some, List,
}
use hovorun.Containers.TextMap
use hovorun.Containers.TextMap.{TextMap, same_text, same_text_eq}
use hovorun.App.Accounts.{
  Account, AccountStore, Accounts, add, find, may_register, register, login, ok, wrong_password,
  unknown_user,
}

-- The second login, of a user who is known.
login_known :
    (username password : List ℕ) (account : Account) (s : AccountStore)
    → find username s ≡ some account
    → login username password s
      ≡ ((if same_text account.password password then ok else wrong_password), s)
unfolding login
login_known username password account s e = rw (e, login) refl

find-add :
    (username password : List ℕ) (accounts : Accounts)
    → TextMap.find username accounts ≡ none
    → TextMap.find username (add username password accounts)
      ≡ some (record {
        index = (length accounts + 1) % 2 ^ 32;
        username = username;
        password = password;
      })
unfolding add
find-add username password accounts e = rw (e, add) (TextMap.find-append_none username _ accounts e)

login_new :
    (username password : List ℕ) (s : AccountStore)
    → find username s ≡ none
    → may_register username password s ≡ true
    → login username password s ≡ (ok, register username password s)
unfolding login
login_new username password s e m = rw (e, login) (rw (m) refl)

login_refused :
    (username password : List ℕ) (s : AccountStore)
    → find username s ≡ none
    → may_register username password s ≡ false
    → login username password s ≡ (unknown_user, s)
unfolding login
login_refused username password s e m = rw (e, login) (rw (m) refl)

answer_ok : (b : Bool) → (if b then ok else wrong_password) ≡ ok → b ≡ true
answer_ok true h = refl
answer_ok false h = cc

-- The password of an account that let a login through.
known_password :
    (username password : List ℕ) (account : Account) (s : AccountStore)
    → find username s ≡ some account
    → (login username password s).0 ≡ ok
    → account.password ≡ password
known_password username password account s e h = same_text_eq account.password password (
    answer_ok (same_text account.password password)
      (ap (λ r. r.0) (sym (login_known username password account s e)) ∙ h))

-- Once a login has succeeded, by registering or not, that user logs in with that password and with no
-- other, and logging in changes nothing.
pub login-login :
    (username password other : List ℕ) (s : AccountStore)
    → (login username password s).0 ≡ ok
    → login username other (login username password s).1
      ≡ ((if same_text password other then ok else wrong_password), (login username password s).1)
login-login username password other s h = elim (Option-cases (find username s)) [
  | inr (account, e) ↦ rw (login_known username password account s e) (
      login_known username other account s e
      ∙ ap (λ x. ((if same_text x other then ok else wrong_password), s))
          (known_password username password account s e h))
  | inl e ↦ elim (Bool-cases (may_register username password s)) [
    | inl m ↦ rw (login_new username password s e m) (
        login_known username other _ (register username password s)
          (find-add username password s.accounts e))
    | inr m ↦ let bad = ap (λ r. r.0) (sym (login_refused username password s e m)) ∙ h in cc
  ]
]
