-- ===== src/Config.antt =====
-- EtherRecorder/src/app_config.c: the entries of the configuration file and their values.
pub mod Load
pub mod Values
pub mod File
use ether_recorder_suite.Prelude.{
  ℕ, zero, suc, ◌+◌, ◌-◌, ◌*◌, ◌≤◌, Bool, true, false, not, ◌&&◌, ◌||◌, Option, none, some, List,
  [], ◌∷◌, ◌++◌, ltb, leb, ◌==◌, if◌then◌else◌, length, take, drop, codes, bytes_eq,
}
use ether_recorder_suite.Text.{
  is_space, skip_spaces, same_nocase, platform_strcat, trim_whitespace, trim_comments, split_at,
}

-- `int`, for the texts whose number it holds.
pub data ℤ : Type 0 where
  pos : ℕ → ℤ
  negsuc : ℕ → ℤ

abbrev pub max_line_length : ℕ
max_line_length = 256

abbrev pub max_section_length : ℕ
max_section_length = 50

abbrev pub max_key_length : ℕ
max_key_length = 50

abbrev pub config_max_value_length : ℕ
config_max_value_length = 200

pub record ConfigEntry : Type 0 where
  pub section : List ℕ
  pub key : List ℕ
  pub value : List ℕ

-- The list `config_entries`, newest first.
unfoldable pub find_config_entry : List ConfigEntry → List ℕ → List ℕ → Option ConfigEntry
find_config_entry [] section key = none
find_config_entry (e ∷ es) section key =
    let rest = find_config_entry es section key in
    if same_nocase e.section section && same_nocase e.key key then some e else rest

-- One round of the loop of `load_config`: the section, the entries and the line.
unfoldable pub load_line : List ℕ × List ConfigEntry → List ℕ → List ℕ × List ConfigEntry
load_line (current_section, entries) line = elim (trim_comments (trim_whitespace line)) [
  | [] ↦ (current_section, entries)
  | c ∷ cs ↦
      if c == 91
      then elim (split_at 93 (c ∷ cs)) [
        | none ↦ (current_section, entries)
        | some (name, rest) ↦ (platform_strcat [] (drop 1 name) max_section_length, entries)
      ]
      else elim (split_at 61 (c ∷ cs)) [
        | none ↦ (current_section, entries)
        | some (key, value) ↦ (
          current_section,
          record {
            section = platform_strcat [] current_section max_section_length;
            key = platform_strcat [] (trim_whitespace key) max_key_length;
            value = platform_strcat [] (trim_whitespace value) config_max_value_length;
          }
              ∷ entries,
        )
      ]
]

unfoldable pub load_lines : List ℕ × List ConfigEntry → List (List ℕ) → List ℕ × List ConfigEntry
load_lines state [] = state
load_lines state (line ∷ lines) = load_lines (load_line state line) lines

-- What `fgets` stores of the next line, with so many bytes left in the buffer, and what it leaves.
unfoldable pub fgets : ℕ → List ℕ → List ℕ × List ℕ
fgets zero file = ([], file)
fgets (suc n) [] = ([], [])
fgets (suc n) (c ∷ cs) =
    let (line, rest) = fgets n cs in if c == 10 then (c ∷ [], cs) else (c ∷ line, rest)

-- The lines of a file without zero bytes. The fuel is a bound on their number.
unfoldable pub file_lines : ℕ → List ℕ → List (List ℕ)
file_lines zero file = []
file_lines (suc fuel) [] = []
file_lines (suc fuel) (c ∷ cs) =
    let (line, rest) = fgets (max_line_length - 1) (c ∷ cs) in line ∷ file_lines fuel rest

-- `load_config`, with the bytes of the file if its path is resolved and it can be opened.
unfoldable pub load_config : Option (List ℕ) → List ConfigEntry → Bool × List ConfigEntry
load_config none entries = (false, entries)
load_config (some file) entries =
    (true, (load_lines ([], entries) (file_lines (length file) file)).1)

unfoldable pub get_config_string : List ConfigEntry → List ℕ → List ℕ → Option (List ℕ)
get_config_string entries section key = elim (find_config_entry entries section key) [
  | none ↦ none
  | some e ↦ some e.value
]

-- `atoi`.
unfoldable pub digits : ℕ → List ℕ → ℕ
digits n [] = n
digits n (c ∷ cs) =
    let more = digits (n * 10 + (c - 48)) cs in if leb 48 c && leb c 57 then more else n

unfoldable pub negated : ℕ → ℤ
negated zero = pos 0
negated (suc n) = negsuc n

unfoldable pub atoi : List ℕ → ℤ
atoi s = elim (skip_spaces s) [
  | [] ↦ pos 0
  | c ∷ cs ↦
      if c == 45
      then negated (digits 0 cs)
      else if c == 43
      then pos (digits 0 cs)
      else pos (digits 0 (c ∷ cs))
]

unfoldable pub get_config_int : List ConfigEntry → List ℕ → List ℕ → ℤ → ℤ
get_config_int entries section key default_value = elim (get_config_string entries section key) [
  | none ↦ default_value
  | some v ↦ atoi v
]

unfoldable pub get_config_uint16 : List ConfigEntry → List ℕ → List ℕ → ℕ → ℕ
get_config_uint16 entries section key default_value =
    elim (get_config_int entries section key (pos default_value)) [
      | negsuc n ↦ default_value
      | pos n ↦ if ltb 65535 n then default_value else n
    ]

abbrev pub is_truthy : List ℕ → Bool
is_truthy v =
    same_nocase v (codes "true")
    || same_nocase v (codes "yes")
    || same_nocase v (codes "on")
    || bytes_eq v (codes "1")

abbrev pub is_falsy : List ℕ → Bool
is_falsy v =
    same_nocase v (codes "false")
    || same_nocase v (codes "no")
    || same_nocase v (codes "off")
    || bytes_eq v (codes "0")

unfoldable pub get_config_bool : List ConfigEntry → List ℕ → List ℕ → Bool → Bool
get_config_bool entries section key default_value = elim (get_config_string entries section key) [
  | none ↦ default_value
  | some v ↦ if is_truthy v then true else if is_falsy v then false else default_value
]

unfoldable pub free_config : List ConfigEntry → List ConfigEntry
free_config entries = []
