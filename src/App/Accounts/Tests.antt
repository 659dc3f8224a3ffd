-- ===== src/App/Accounts/Tests.antt =====
-- src/app/accounts.hpp: logins on small inputs, and the theorems at them.
use hovorun.Prelude.{if◌then◌else◌, ℕ, ◌≡◌, refl, true, false, List, [], ◌∷◌, flatten}
use hovorun.Containers.TextMap
use hovorun.Containers.TextMap.{TextMap, same_text}
use hovorun.App.Accounts.{
  AccountStore, contains_char, add, words, pairs, add_all, load, line, login, ok, wrong_password,
}
use hovorun.App.Accounts.Reload.{IsWord, IsStored, load-login}
use hovorun.App.Accounts.Numbering.{IsNumbered, load-IsNumbered}
use hovorun.App.Accounts.Logins.{login-login}

abbrev bob : List ℕ
bob = 98 ∷ 111 ∷ 98 ∷ []

abbrev secret : List ℕ
secret = 112 ∷ 119 ∷ []

abbrev new_store : AccountStore
new_store = load true []

bob_file : (login bob secret new_store).1.file ≡ 98 ∷ 111 ∷ 98 ∷ 32 ∷ 112 ∷ 119 ∷ 10 ∷ []
unfolding login TextMap.find contains_char add line same_text load words pairs add_all
bob_file = refl

bob_in : (login bob secret new_store).0 ≡ ok
unfolding login TextMap.find contains_char add line same_text load words pairs add_all
bob_in = refl

-- An account that was registered with an empty password is not there after a restart.
blank_password_lost : (load true (login bob [] new_store).1.file).accounts ≡ []
unfolding login TextMap.find contains_char add line same_text load words pairs add_all
blank_password_lost = refl

bob-IsWord : IsWord bob
bob-IsWord = record { some_letter = refl; no_space = (refl, (refl, (refl, tt))) }

secret-IsWord : IsWord secret
secret-IsWord = record { some_letter = refl; no_space = (refl, (refl, tt)) }

new_store-IsStored : IsStored new_store
unfolding load words pairs add_all flatten
new_store-IsStored = record { entries = []; are_words = tt; printed = refl; added = refl }

load-login_example :
    (load false (login bob secret new_store).1.file).accounts
    ≡ (login bob secret new_store).1.accounts
load-login_example =
    load-login false bob secret new_store bob-IsWord secret-IsWord new_store-IsStored

login-login_example :
    login bob bob (login bob secret new_store).1
    ≡ ((if same_text secret bob then ok else wrong_password), (login bob secret new_store).1)
login-login_example = login-login bob secret bob new_store bob_in

load-IsNumbered_example : IsNumbered 1 (load false (98 ∷ 32 ∷ 99 ∷ [])).accounts
load-IsNumbered_example = load-IsNumbered false (98 ∷ 32 ∷ 99 ∷ [])
