-- ===== src/App/Accounts/Numbering.antt =====
-- src/app/accounts.hpp: the numbers of the accounts, which the game uses as user indices.
use hovorun.Prelude.{
  Option-cases, if_elim, length, ℕ, ◌+◌, ◌%◌, ◌^◌, ◌≡◌, refl, ap, ◌∙◌, inl, inr, Bool, List, [],
  ◌∷◌, ◌++◌, arith,
}
use hovorun.Containers.TextMap
use hovorun.Containers.TextMap.{TextMap}
use hovorun.App.Accounts.{
  Account, AccountStore, LoginResult, Accounts, add, find, words, pairs, add_all, load,
  may_register, login,
}

-- Each account stands under its own name, and the indices count up from `n`, as uint32_t does.
abbrev pub IsNumbered : ℕ → Accounts → Type 0
IsNumbered n [] = Unit {0}
IsNumbered n ((name, account) ∷ accounts) =
    ((account.username ≡ name) × (account.index ≡ n % 2 ^ 32)) × IsNumbered (n + 1) accounts

append-IsNumbered :
    (n : ℕ) (name : List ℕ) (account : Account) (accounts : Accounts)
    → account.username ≡ name
    → account.index ≡ (length accounts + n) % 2 ^ 32
    → IsNumbered n accounts
    → IsNumbered n (accounts ++ (name, account) ∷ [])
append-IsNumbered n name account [] e i h = ((e, i ∙ ap (λ k. k % 2 ^ 32) (omega arith)), tt)
append-IsNumbered n name account (x ∷ accounts) e i h = (
  h.0,
  append-IsNumbered (n + 1) name account accounts e (i ∙ ap (λ k. k % 2 ^ 32) (omega arith)) h.1,
)

add-IsNumbered :
    (username password : List ℕ) (accounts : Accounts)
    → IsNumbered 1 accounts
    → IsNumbered 1 (add username password accounts)
unfolding add
add-IsNumbered username password accounts h = elim (Option-cases (TextMap.find username accounts)) [
  | inr (account, e) ↦ rw (e, add) h
  | inl e ↦ rw (e, add) (append-IsNumbered 1 username _ accounts refl refl h)
]

add_all-IsNumbered :
    (es : List (List ℕ × List ℕ)) (accounts : Accounts)
    → IsNumbered 1 accounts
    → IsNumbered 1 (add_all es accounts)
unfolding add_all
add_all-IsNumbered [] accounts h = h
add_all-IsNumbered ((user, pass) ∷ es) accounts h =
    add_all-IsNumbered es (add user pass accounts) (add-IsNumbered user pass accounts h)

-- Whatever the file holds, the accounts that are read from it stand under their own names and have the
-- indices from 1 on in the order of the file.
pub load-IsNumbered :
    (auto_register : Bool) (file : List ℕ) → IsNumbered 1 (load auto_register file).accounts
unfolding load
load-IsNumbered auto_register file = add_all-IsNumbered (pairs (words [] file)) [] tt

-- A login keeps the names and the indices so, whatever the name and the password are.
pub login-IsNumbered :
    (username password : List ℕ) (s : AccountStore)
    → IsNumbered 1 s.accounts
    → IsNumbered 1 (login username password s).1.accounts
unfolding login
login-IsNumbered username password s h = elim (Option-cases (find username s)) [
  | inr (account, e) ↦ rw (e, login) h
  | inl e ↦
      rw (e, login)
        (if_elim (λ (r : LoginResult × AccountStore). IsNumbered 1 r.1.accounts)
          (may_register username password s) (λ _. add-IsNumbered username password s.accounts h)
          (λ _. h))
]
