-- ===== src/App/Accounts.antt =====
-- src/app/accounts.hpp: the accounts and the file behind them. A string is the list of its bytes and
-- the map an association list; the file is its content, to which a registration appends.
pub mod Logins
pub mod Numbering
pub mod Reload
mod Tests
use hovorun.Prelude.{
  leb, ◌==◌, if◌then◌else◌, length, ℕ, ◌+◌, ◌%◌, ◌^◌, Bool, true, false, not, ◌&&◌, ◌||◌, Option,
  none, some, List, [], ◌∷◌, ◌++◌,
}
use hovorun.Containers.TextMap
use hovorun.Containers.TextMap.{TextMap, same_text}

-- std::string::contains, for one character
unfoldable pub contains_char : ℕ → List ℕ → Bool
contains_char c [] = false
contains_char c (x ∷ xs) = x == c || contains_char c xs

abbrev pub is_blank : List ℕ → Bool
is_blank [] = true
is_blank _ = false

pub record Account : Type 0 where
  pub index : ℕ
  pub username : List ℕ
  pub password : List ℕ

pub data LoginResult : Type 0 where
  ok wrong_password unknown_user : LoginResult

abbrev pub Accounts : Type 0
Accounts = TextMap Account

pub record AccountStore : Type 0 where
  pub file : List ℕ
  pub auto_register : Bool
  pub accounts : Accounts

-- try_emplace: an account that is there stays.
unfoldable pub add : List ℕ → List ℕ → Accounts → Accounts
add username password accounts = elim (TextMap.find username accounts) [
  | some account ↦ accounts
  | none ↦
      accounts
      ++ (
        username,
        record { index = (length accounts + 1) % 2 ^ 32; username = username; password = password },
      )
        ∷ []
]

-- account_store::find
abbrev pub find : List ℕ → AccountStore → Option Account
find username s = TextMap.find username s.accounts

-- std::isspace in the "C" locale
abbrev pub is_space : ℕ → Bool
is_space c = c == 32 || (leb 9 c && leb c 13)

-- The words that operator>> takes off a stream; `word` is what was read of the next.
unfoldable pub words : List ℕ → List ℕ → List (List ℕ)
words word [] = if is_blank word then [] else word ∷ []
words word (c ∷ s) =
    let rest = words [] s in
    let longer = words (word ++ c ∷ []) s in
    if is_space c then if is_blank word then rest else word ∷ rest else longer

-- for (user, pass; in >> user >> pass;)
unfoldable pub pairs : List (List ℕ) → List (List ℕ × List ℕ)
pairs (user ∷ pass ∷ rest) = (user, pass) ∷ pairs rest
pairs _ = []

unfoldable pub add_all : List (List ℕ × List ℕ) → Accounts → Accounts
unfolding add
add_all [] accounts = accounts
add_all ((user, pass) ∷ rest) accounts = add_all rest (add user pass accounts)

-- The constructor.
unfoldable pub load : Bool → List ℕ → AccountStore
unfolding words pairs add_all
load auto_register file = record {
  file = file;
  auto_register = auto_register;
  accounts = add_all (pairs (words [] file)) [];
}

-- username << ' ' << password << '\n'
unfoldable pub line : List ℕ × List ℕ → List ℕ
line (username, password) = username ++ (32 ∷ (password ++ (10 ∷ [])))

abbrev pub may_register : List ℕ → List ℕ → AccountStore → Bool
may_register username password s = not (
    not s.auto_register
    || is_blank username
    || contains_char 32 username
    || contains_char 32 password)

abbrev pub register : List ℕ → List ℕ → AccountStore → AccountStore
register username password s = record s {
  file = s.file ++ line (username, password);
  accounts = add username password s.accounts;
}

unfoldable pub login : List ℕ → List ℕ → AccountStore → LoginResult × AccountStore
unfolding contains_char add line
login username password s = elim (find username s) [
  | some account ↦ (if same_text account.password password then ok else wrong_password, s)
  | none ↦
      if may_register username password s
      then (ok, register username password s)
      else (unknown_user, s)
]
