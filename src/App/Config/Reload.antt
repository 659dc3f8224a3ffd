-- ===== src/App/Config/Reload.antt =====
-- src/app/config.hpp: a file that is printed is read back.
use hovorun.Prelude.{
  ◌==◌, All, All-append, ℕ, ◌≡◌, refl, ap, ◌∙◌, false, ◌||◌, none, some, List, [], ◌∷◌, ◌++◌, arith,
}
use hovorun.Containers.TextMap
use hovorun.Containers.TextMap.{TextMap}
use hovorun.App.Config.{
  is_margin, is_blank, trim_left, trim_right, trim, onto_first, lines, starts_with, before_last,
  cut_at, header_name, put_value, read_text, read_line, read_lines, load,
}

-- No white space that trim takes off.
abbrev pub IsInk : ℕ → Type 0
IsInk c = is_margin c ≡ false

abbrev pub IsKeyCharacter : ℕ → Type 0
IsKeyCharacter c = IsInk c × ((c == 61) ≡ false)

-- The first character of an entry, which opens neither a comment nor a header.
abbrev pub IsKeyStart : ℕ → Type 0
IsKeyStart c = ((c == 59) ≡ false) × ((c == 35) ≡ false) × ((c == 91) ≡ false)

abbrev pub IsKey : List ℕ → Type 0
IsKey [] = ⊥
IsKey (c ∷ key) = IsKeyStart c × All IsKeyCharacter (c ∷ key)

-- An entry without white space, and a section with its name.
pub record Entry : Type 0 where
  pub key : List ℕ
  pub value : List ℕ
  pub key_ok : IsKey key
  pub value_ok : All IsInk value

pub record Section : Type 0 where
  pub name : List ℕ
  pub name_ok : All IsInk name
  pub entries : List Entry

abbrev pub entry_line : Entry → List ℕ
entry_line e = e.key ++ 61 ∷ e.value

abbrev pub header_line : Section → List ℕ
header_line s = 91 ∷ s.name ++ 93 ∷ []

pub print_entries : List Entry → List ℕ → List ℕ
print_entries [] rest = rest
print_entries (e ∷ entries) rest = entry_line e ++ 10 ∷ print_entries entries rest

-- The file of the sections.
pub print : List Section → List ℕ
unfolding print_entries
print [] = []
print (s ∷ sections) = header_line s ++ 10 ∷ print_entries s.entries (print sections)

pub put_entries : List ℕ → List Entry → TextMap (List ℕ) → TextMap (List ℕ)
put_entries name [] values = values
put_entries name (e ∷ entries) values =
    put_entries name entries (TextMap.put (name ++ 46 ∷ e.key) e.value values)

-- Every entry in the order of the file, under the name of its section; a later one replaces an earlier.
pub put_sections : List Section → TextMap (List ℕ) → TextMap (List ℕ)
unfolding put_entries
put_sections [] values = values
put_sections (s ∷ sections) values = put_sections sections (put_entries s.name s.entries values)

trim_right-ink : (s : List ℕ) → All IsInk s → trim_right s ≡ s
unfolding trim_right
trim_right-ink [] h = refl
trim_right-ink (c ∷ s) h = rw (h.0) (ap (◌∷◌ c) (trim_right-ink s h.1))

trim-ink : (s : List ℕ) → All IsInk s → trim s ≡ s
unfolding trim trim_left
trim-ink [] h = trim_right-ink [] h
trim-ink (c ∷ s) h = rw (h.0) (trim_right-ink (c ∷ s) h)

lines-line : (line rest : List ℕ) → All IsInk line → lines (line ++ 10 ∷ rest) ≡ line ∷ lines rest
unfolding lines
lines-line [] rest h = refl
lines-line (c ∷ line) rest h =
    let other : (c == 10) ≡ false = ground (arith, h.0) in
    rw (other) (ap (onto_first c) (lines-line line rest h.1))

cut_at-key :
    (key value : List ℕ)
    → All IsKeyCharacter key
    → cut_at 61 (key ++ 61 ∷ value) ≡ some (key, value)
unfolding cut_at
cut_at-key [] value h = refl
cut_at-key (c ∷ key) value h =
    rw (h.0.1)
      (ap (λ o. elim o [ none ↦ none | some (k, v) ↦ some (c ∷ k, v) ]) (cut_at-key key value h.1))

before_last-append : (c : ℕ) (s : List ℕ) → before_last c (s ++ c ∷ []) ≡ some s
unfolding before_last
before_last-append c [] = ground arith
before_last-append c (x ∷ []) =
    ap (λ o. elim o [ none ↦ none | some t ↦ some (x ∷ t) ]) (before_last-append c [])
before_last-append c (x ∷ y ∷ s) =
    ap (λ o. elim o [ none ↦ none | some t ↦ some (x ∷ t) ]) (before_last-append c (y ∷ s))

All-IsInk : (key : List ℕ) → All IsKeyCharacter key → All IsInk key
All-IsInk [] h = tt
All-IsInk (c ∷ key) h = (h.0.0, All-IsInk key h.1)

IsKey-characters : (key : List ℕ) → IsKey key → All IsKeyCharacter key
IsKey-characters [] h = absurd h
IsKey-characters (c ∷ key) h = h.1

entry_line-IsInk : (e : Entry) → All IsInk (entry_line e)
entry_line-IsInk e =
    All-append IsInk e.key (61 ∷ e.value) (All-IsInk e.key (IsKey-characters e.key e.key_ok))
      (refl, e.value_ok)

header_line-IsInk : (s : Section) → All IsInk (header_line s)
header_line-IsInk s = (refl, All-append IsInk s.name (93 ∷ []) s.name_ok (refl, tt))

-- A line that starts as a key is no comment and no header.
start-header_name :
    (key value : List ℕ)
    → IsKey key
    → ((is_blank (key ++ value) || starts_with (key ++ value) 59 || starts_with (key ++ value) 35)
        ≡ false)
      × (header_name (key ++ value) ≡ none)
start-header_name [] value h = absurd h
start-header_name (c ∷ key) value h = (rw (h.0.0, h.0.1) refl, rw (h.0.2) refl)

put_value-entry :
    (e : Entry) (name : List ℕ) (values : TextMap (List ℕ))
    → put_value (some (e.key, e.value)) (name, values)
      ≡ (name, TextMap.put (name ++ 46 ∷ e.key) e.value values)
unfolding put_value
put_value-entry e name values =
    ap (λ k. (name, TextMap.put (name ++ 46 ∷ k) (trim e.value) values))
      (trim-ink e.key (All-IsInk e.key (IsKey-characters e.key e.key_ok)))
    ∙ ap (λ v. (name, TextMap.put (name ++ 46 ∷ e.key) v values)) (trim-ink e.value e.value_ok)

read_line-entry :
    (e : Entry) (name : List ℕ) (values : TextMap (List ℕ))
    → read_line (entry_line e) (name, values)
      ≡ (name, TextMap.put (name ++ 46 ∷ e.key) e.value values)
unfolding read_line read_text
read_line-entry e name values =
    let start = start-header_name e.key (61 ∷ e.value) e.key_ok in
    let cut = cut_at-key e.key e.value (IsKey-characters e.key e.key_ok) in
    ap (λ t. read_text t (name, values)) (trim-ink (entry_line e) (entry_line-IsInk e))
    ∙ rw (start.0, start.1)
        (ap (λ c. put_value c (name, values)) cut ∙ put_value-entry e name values)

read_line-header :
    (s : Section) (name : List ℕ) (values : TextMap (List ℕ))
    → read_line (header_line s) (name, values) ≡ (s.name, values)
unfolding read_line read_text
read_line-header s name values =
    ap (λ t. read_text t (name, values)) (trim-ink (header_line s) (header_line-IsInk s))
    ∙ rw (before_last-append 93 s.name) (ap (λ n. (n, values)) (trim-ink s.name s.name_ok))

read_lines-entries :
    (entries : List Entry) (rest name : List ℕ) (values : TextMap (List ℕ))
    → read_lines (lines (print_entries entries rest)) (name, values)
      ≡ read_lines (lines rest) (name, put_entries name entries values)
unfolding print_entries put_entries read_lines
read_lines-entries [] rest name values = refl
read_lines-entries (e ∷ entries) rest name values =
    ap (λ l. read_lines l (name, values))
      (lines-line (entry_line e) (print_entries entries rest) (entry_line-IsInk e))
    ∙ ap (read_lines (lines (print_entries entries rest))) (read_line-entry e name values)
    ∙ read_lines-entries entries rest name (TextMap.put (name ++ 46 ∷ e.key) e.value values)

read_lines-print :
    (sections : List Section) (name : List ℕ) (values : TextMap (List ℕ))
    → (read_lines (lines (print sections)) (name, values)).1 ≡ put_sections sections values
unfolding print put_sections read_lines lines
read_lines-print [] name values = refl
read_lines-print (s ∷ sections) name values =
    let rest = print_entries s.entries (print sections) in
    ap (λ l. (read_lines l (name, values)).1)
      (lines-line (header_line s) rest (header_line-IsInk s))
    ∙ ap (λ t. (read_lines (lines rest) t).1) (read_line-header s name values)
    ∙ ap (λ t. t.1) (read_lines-entries s.entries (print sections) s.name values)
    ∙ read_lines-print sections s.name (put_entries s.name s.entries values)

-- A file of sections whose names, keys and values have no white space, and whose keys have no = and do
-- not start like a comment or a header, is read as its entries, a later one in place of an earlier.
pub load-print : (sections : List Section) → load (print sections) ≡ put_sections sections []
unfolding load
load-print sections = read_lines-print sections [] []
