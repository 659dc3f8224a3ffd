-- ===== src/App/Config.antt =====
-- src/app/config.hpp: the ini reader and the values of the servers. A string is the list of its bytes,
-- the file its content; a file that cannot be opened stops the source before.
pub mod Reload
pub mod Numbers
mod Tests
use hovorun.Prelude.{
  ltb, ◌==◌, leb, if◌then◌else◌, ℕ, ◌+◌, ◌-◌, ◌*◌, ◌^◌, Bool, true, false, not, ◌&&◌, ◌||◌, Option,
  none, some, List, [], ◌∷◌, ◌++◌,
}
use hovorun.Containers.TextMap
use hovorun.Containers.TextMap.{TextMap, same_text}

-- The characters that trim takes off: space, tab, return and new line.
abbrev pub is_margin : ℕ → Bool
is_margin c = c == 32 || c == 9 || c == 13 || c == 10

abbrev pub is_blank : List ℕ → Bool
is_blank [] = true
is_blank _ = false

unfoldable pub trim_left : List ℕ → List ℕ
trim_left [] = []
trim_left (c ∷ s) = let rest = trim_left s in if is_margin c then rest else c ∷ s

unfoldable pub trim_right : List ℕ → List ℕ
trim_right [] = []
trim_right (c ∷ s) =
    let rest = trim_right s in if is_margin c && is_blank rest then [] else c ∷ rest

unfoldable pub trim : List ℕ → List ℕ
unfolding trim_left trim_right
trim s = trim_right (trim_left s)

abbrev pub onto_first : ℕ → List (List ℕ) → List (List ℕ)
onto_first c [] = (c ∷ []) ∷ []
onto_first c (line ∷ lines) = (c ∷ line) ∷ lines

-- The lines that std::getline reads.
unfoldable pub lines : List ℕ → List (List ℕ)
lines [] = []
lines (c ∷ file) = let rest = lines file in if c == 10 then [] ∷ rest else onto_first c rest

abbrev pub starts_with : List ℕ → ℕ → Bool
starts_with [] c = false
starts_with (x ∷ s) c = x == c

-- The text without its last character, if that is `c`.
unfoldable pub before_last : ℕ → List ℕ → Option (List ℕ)
before_last c [] = none
before_last c (x ∷ []) = if x == c then some [] else none
before_last c (x ∷ y ∷ s) = elim (before_last c (y ∷ s)) [ none ↦ none | some t ↦ some (x ∷ t) ]

-- The text before the first `c` and that after it.
unfoldable pub cut_at : ℕ → List ℕ → Option (List ℕ × List ℕ)
cut_at c [] = none
cut_at c (x ∷ s) =
    let rest = cut_at c s in
    if x == c
    then some ([], s)
    else elim rest [ none ↦ none | some (key, value) ↦ some (x ∷ key, value) ]

-- What stands between [ and ], in a text of two characters or more.
abbrev pub header_name : List ℕ → Option (List ℕ)
header_name [] = none
header_name (x ∷ s) = if x == 91 then before_last 93 s else none

-- The section that the loop is in, and m_values.
abbrev pub Ini : Type 0
Ini = List ℕ × TextMap (List ℕ)

unfoldable pub put_value : Option (List ℕ × List ℕ) → Ini → Ini
unfolding trim TextMap.put
put_value none s = s
put_value (some (key, value)) (section, values) =
    (section, TextMap.put (section ++ 46 ∷ trim key) (trim value) values)

-- The body of the loop after trim.
unfoldable pub read_text : List ℕ → Ini → Ini
unfolding before_last cut_at put_value trim
read_text text (section, values) =
    if is_blank text || starts_with text 59 || starts_with text 35
    then (section, values)
    else elim (header_name text) [
      | some name ↦ (trim name, values)
      | none ↦ put_value (cut_at 61 text) (section, values)
    ]

unfoldable pub read_line : List ℕ → Ini → Ini
unfolding read_text trim
read_line line s = read_text (trim line) s

unfoldable pub read_lines : List (List ℕ) → Ini → Ini
unfolding read_line
read_lines [] s = s
read_lines (line ∷ lines) s = read_lines lines (read_line line s)

unfoldable pub load : List ℕ → TextMap (List ℕ)
unfolding read_lines lines
load file = (read_lines (lines file) ([], [])).1

-- ini_file::get
unfoldable pub get : List ℕ → List ℕ → TextMap (List ℕ) → List ℕ
unfolding TextMap.find
get key fallback values = elim (TextMap.find key values) [ none ↦ fallback | some text ↦ text ]

abbrev pub is_digit : ℕ → Bool
is_digit c = leb 48 c && leb c 57

-- The digits that std::from_chars reads after the number `n`, up to the end.
unfoldable pub digits_from : ℕ → List ℕ → Option ℕ
digits_from n [] = some n
digits_from n (c ∷ s) =
    let rest = digits_from (n * 10 + (c - 48)) s in if is_digit c then rest else none

-- std::from_chars for an unsigned number of `w` bits, with all of the text: nothing on an error.
unfoldable pub from_chars : ℕ → List ℕ → Option ℕ
unfolding digits_from
from_chars w text = elim (if is_blank text then none else digits_from 0 text) [
  | none ↦ none
  | some n ↦ if ltb n (2 ^ w) then some n else none
]

-- ini_file::get_number, for numbers of `w` bits
unfoldable pub get_number : ℕ → List ℕ → ℕ → TextMap (List ℕ) → ℕ
unfolding get from_chars
get_number w key fallback values = elim (from_chars w (get key [] values)) [
  | none ↦ fallback
  | some n ↦ n
]

pub record Config : Type 0 where
  pub session_port : ℕ
  pub messenger_port : ℕ
  pub game_port : ℕ
  pub game_public_ip : List ℕ
  pub accounts_file : List ℕ
  pub auto_register : Bool
  pub log_level : List ℕ

-- "session.port"
abbrev pub session_port_key : List ℕ
session_port_key = 115 ∷ 101 ∷ 115 ∷ 115 ∷ 105 ∷ 111 ∷ 110 ∷ 46 ∷ 112 ∷ 111 ∷ 114 ∷ 116 ∷ []

-- "messenger.port"
abbrev pub messenger_port_key : List ℕ
messenger_port_key =
    109 ∷ 101 ∷ 115 ∷ 115 ∷ 101 ∷ 110 ∷ 103 ∷ 101 ∷ 114 ∷ 46 ∷ 112 ∷ 111 ∷ 114 ∷ 116 ∷ []

-- "game.port"
abbrev pub game_port_key : List ℕ
game_port_key = 103 ∷ 97 ∷ 109 ∷ 101 ∷ 46 ∷ 112 ∷ 111 ∷ 114 ∷ 116 ∷ []

-- "game.public_ip"
abbrev pub game_public_ip_key : List ℕ
game_public_ip_key =
    103 ∷ 97 ∷ 109 ∷ 101 ∷ 46 ∷ 112 ∷ 117 ∷ 98 ∷ 108 ∷ 105 ∷ 99 ∷ 95 ∷ 105 ∷ 112 ∷ []

-- "accounts.file"
abbrev pub accounts_file_key : List ℕ
accounts_file_key = 97 ∷ 99 ∷ 99 ∷ 111 ∷ 117 ∷ 110 ∷ 116 ∷ 115 ∷ 46 ∷ 102 ∷ 105 ∷ 108 ∷ 101 ∷ []

-- "accounts.auto_register"
abbrev pub auto_register_key : List ℕ
auto_register_key =
    97 ∷ 99 ∷ 99 ∷ 111 ∷ 117 ∷ 110 ∷ 116 ∷ 115 ∷ 46 ∷ 97 ∷ 117 ∷ 116 ∷ 111 ∷ 95 ∷ 114 ∷ 101 ∷ 103
    ∷ 105 ∷ 115 ∷ 116 ∷ 101 ∷ 114 ∷ []

-- "log.level"
abbrev pub log_level_key : List ℕ
log_level_key = 108 ∷ 111 ∷ 103 ∷ 46 ∷ 108 ∷ 101 ∷ 118 ∷ 101 ∷ 108 ∷ []

-- "127.0.0.1"
abbrev pub loopback : List ℕ
loopback = 49 ∷ 50 ∷ 55 ∷ 46 ∷ 48 ∷ 46 ∷ 48 ∷ 46 ∷ 49 ∷ []

-- "accounts.txt"
abbrev pub accounts_txt : List ℕ
accounts_txt = 97 ∷ 99 ∷ 99 ∷ 111 ∷ 117 ∷ 110 ∷ 116 ∷ 115 ∷ 46 ∷ 116 ∷ 120 ∷ 116 ∷ []

-- "true"
abbrev pub true_text : List ℕ
true_text = 116 ∷ 114 ∷ 117 ∷ 101 ∷ []

-- "info"
abbrev pub info : List ℕ
info = 105 ∷ 110 ∷ 102 ∷ 111 ∷ []

abbrev pub default_config : Config
default_config = record {
  session_port = 23111;
  messenger_port = 24111;
  game_port = 25111;
  game_public_ip = loopback;
  accounts_file = accounts_txt;
  auto_register = true;
  log_level = info;
}

-- config::from
unfoldable pub from : TextMap (List ℕ) → Config
unfolding get get_number same_text
from values = record {
  session_port = get_number 16 session_port_key default_config.session_port values;
  messenger_port = get_number 16 messenger_port_key default_config.messenger_port values;
  game_port = get_number 16 game_port_key default_config.game_port values;
  game_public_ip = get game_public_ip_key default_config.game_public_ip values;
  accounts_file = get accounts_file_key default_config.accounts_file values;
  auto_register = same_text (get auto_register_key true_text values) true_text;
  log_level = get log_level_key default_config.log_level values;
}
