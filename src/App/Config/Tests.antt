-- ===== src/App/Config/Tests.antt =====
-- src/app/config.hpp: a small file, and the theorems at it.
use hovorun.Prelude.{ltb, if◌then◌else◌, ℕ, ◌^◌, ◌≡◌, refl, List, [], ◌∷◌}
use hovorun.Containers.TextMap
use hovorun.Containers.TextMap.{same_text}
use hovorun.App.Config.{
  trim_left, trim_right, trim, lines, before_last, cut_at, put_value, read_text, read_line,
  read_lines, load, get, digits_from, from_chars, get_number, Config, from, game_port_key,
  default_config,
}
use hovorun.App.Config.Reload.{Section, print, put_sections, load-print}
use hovorun.App.Config.Numbers.{decimal, get_number-decimal}

-- A comment, spaces, a port that is too large, and a last line without its end.
abbrev some_file : List ℕ
some_file =
    91 ∷ 103 ∷ 97 ∷ 109 ∷ 101 ∷ 93 ∷ 13 ∷ 10 ∷ 59 ∷ 32 ∷ 97 ∷ 32 ∷ 99 ∷ 111 ∷ 109 ∷ 109 ∷ 101 ∷ 110
    ∷ 116 ∷ 10 ∷ 112 ∷ 111 ∷ 114 ∷ 116 ∷ 32 ∷ 61 ∷ 32 ∷ 55 ∷ 48 ∷ 48 ∷ 48 ∷ 48 ∷ 10 ∷ 112 ∷ 117 ∷ 98
    ∷ 108 ∷ 105 ∷ 99 ∷ 95 ∷ 105 ∷ 112 ∷ 61 ∷ 32 ∷ 49 ∷ 46 ∷ 50 ∷ 46 ∷ 51 ∷ 46 ∷ 52 ∷ 32 ∷ 10 ∷ 91
    ∷ 115 ∷ 101 ∷ 115 ∷ 115 ∷ 105 ∷ 111 ∷ 110 ∷ 93 ∷ 10 ∷ 112 ∷ 111 ∷ 114 ∷ 116 ∷ 61 ∷ 52 ∷ 48 ∷ 48
    ∷ 48 ∷ []

abbrev some_config : Config
some_config = record default_config {
  session_port = 4000;
  game_public_ip = 49 ∷ 46 ∷ 50 ∷ 46 ∷ 51 ∷ 46 ∷ 52 ∷ [];
}

some_file-read : from (load some_file) ≡ some_config
unfolding from load read_lines read_line read_text put_value trim trim_left trim_right lines
    before_last cut_at get get_number from_chars digits_from same_text TextMap.put TextMap.find
some_file-read = refl

abbrev some_section : Section
some_section = record {
  name = 103 ∷ 97 ∷ 109 ∷ 101 ∷ [];
  name_ok = (refl, (refl, (refl, (refl, tt))));
  entries =
      record {
        key = 105 ∷ 112 ∷ [];
        value = 58 ∷ 58 ∷ 49 ∷ [];
        key_ok = ((refl, refl, refl), ((refl, refl), ((refl, refl), tt)));
        value_ok = (refl, (refl, (refl, tt)));
      }
      ∷ record {
        key = 105 ∷ 112 ∷ [];
        value = [];
        key_ok = ((refl, refl, refl), ((refl, refl), ((refl, refl), tt)));
        value_ok = tt;
      }
      ∷ [];
}

load-print_example : load (print (some_section ∷ [])) ≡ put_sections (some_section ∷ []) []
load-print_example = load-print (some_section ∷ [])

get_number-decimal_example :
    get_number 16 game_port_key 25111 (TextMap.put game_port_key (decimal 70000) [])
    ≡ (if ltb 70000 (2 ^ 16) then 70000 else 25111)
get_number-decimal_example = get_number-decimal 16 game_port_key 70000 25111 []
