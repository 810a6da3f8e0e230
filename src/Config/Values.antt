-- ===== src/Config/Values.antt =====
-- The entries stay within their buffers, and what the look-up of a value gives.
use ether_recorder_suite.Prelude.{
  ℕ, ◌<◌, ◌≡◌, refl, true, ◌&&◌, List, [], ◌∷◌, ◌++◌, length, arith, if◌then◌else◌, Bool-cases, inl,
  inr, Option, none, some, ◌==◌, Option-cases, ltb, ◌⊎◌,
}
use mathlib.Core.Path.{subst}
use ether_recorder_suite.Text.{
  trim_whitespace, trim_comments, split_at, platform_strcat, same_nocase,
}
use ether_recorder_suite.Text.Trim.{all_space}
use ether_recorder_suite.Text.Cut.{length-platform_strcat}
use ether_recorder_suite.Config.{
  ConfigEntry, load_line, load_lines, file_lines, load_config, get_config_string, find_config_entry,
  pos, negsuc, get_config_int, get_config_uint16,
}
use ether_recorder_suite.Config.Load.{IsKey, IsValue, setting, load_line-setting}

List-cases : (t : List ℕ) → (t ≡ []) ⊎ ((c : ℕ) × (cs : List ℕ) × (t ≡ c ∷ cs))
List-cases [] = inl refl
List-cases (c ∷ cs) = inr (c, cs, refl)

-- The texts of the entries end within their buffers.
pub data AllFit : List ConfigEntry → Type 0 where
  none_left : AllFit []
  one_more :
      (e : ConfigEntry) {es : List ConfigEntry}
      → length e.section < 50
      → length e.key < 50
      → length e.value < 200
      → AllFit es
      → AllFit (e ∷ es)

load_line-AllFit :
    (state : List ℕ × List ConfigEntry) (line : List ℕ)
    → AllFit state.1
    → AllFit (load_line state line).1
unfolding load_line
load_line-AllFit (current, entries) line f =
    elim (List-cases (trim_comments (trim_whitespace line))) [
      | inl e ↦ subst AllFit (ground (arith, e)) f
      | inr (c, cs, e) ↦ elim (Bool-cases (c == 91)) [
        | inl b ↦ elim (Option-cases (split_at 93 (c ∷ cs))) [
          | inl o ↦ subst AllFit (ground (arith, e, o)) f
          | inr ((name, rest), o) ↦ subst AllFit (ground (arith, e, o)) f
        ]
        | inr b ↦ elim (Option-cases (split_at 61 (c ∷ cs))) [
          | inl o ↦ subst AllFit (ground (arith, e, o)) f
          | inr ((key, value), o) ↦ subst AllFit (ground (arith, e, o)) (
              one_more
                (record {
                  section = platform_strcat [] current 50;
                  key = platform_strcat [] (trim_whitespace key) 50;
                  value = platform_strcat [] (trim_whitespace value) 200;
                })
                (length-platform_strcat current 50 (omega arith))
                (length-platform_strcat (trim_whitespace key) 50 (omega arith))
                (length-platform_strcat (trim_whitespace value) 200 (omega arith)) f)
        ]
      ]
    ]

load_lines-AllFit :
    (state : List ℕ × List ConfigEntry) (lines : List (List ℕ))
    → AllFit state.1
    → AllFit (load_lines state lines).1
unfolding load_lines
load_lines-AllFit state [] f = f
load_lines-AllFit state (line ∷ lines) f =
    load_lines-AllFit (load_line state line) lines (load_line-AllFit state line f)

-- Whatever the file holds, the texts that are stored with their ends fit the buffers of an entry.
pub load_config-AllFit :
    (file : Option (List ℕ)) (entries : List ConfigEntry)
    → AllFit entries
    → AllFit (load_config file entries).1
unfolding load_config
load_config-AllFit none entries f = f
load_config-AllFit (some file) entries f =
    load_lines-AllFit ([], entries) (file_lines (length file) file) f

-- A line that sets a key, with any spaces about its parts, in a section whose name fits its buffer:
-- from then on its value is what a look-up of that section and key finds, letters compared without
-- their case, and every other look-up finds what it found before. The key and the value are as in
-- `load_line-setting`.
pub get_config_string-setting :
    (key m n value l r current section' key' : List ℕ) (entries : List ConfigEntry)
    → IsKey key
    → IsValue value
    → all_space m ≡ true
    → all_space n ≡ true
    → all_space l ≡ true
    → all_space r ≡ true
    → length current < 50
    → get_config_string
        (load_line (current, entries) (l ++ (setting key m n value ++ r))).1
        section'
        key'
      ≡ (if same_nocase current section' && same_nocase key key'
          then some value
          else get_config_string entries section' key')
unfolding get_config_string find_config_entry
get_config_string-setting key m n value l r current section' key' entries k v hm hn hl hr hc =
    ground (arith, load_line-setting key m n value k v hm hn l r current entries hl hr hc)

-- The 16-bit value of a setting fits 16 bits if the default does, whatever number the file has.
pub get_config_uint16_lt :
    (entries : List ConfigEntry) (section key : List ℕ) (default_value : ℕ)
    → default_value < 65536
    → get_config_uint16 entries section key default_value < 65536
unfolding get_config_uint16
get_config_uint16_lt entries section key default_value h =
    elim (get_config_int entries section key (pos default_value))
      as (λ z.
        (elim z as (λ z. ℕ) [
          | negsuc n ↦ default_value
          | pos n ↦ if ltb 65535 n then default_value else n
        ])
        < 65536) [ negsuc n ↦ h | pos n ↦ ground arith ]
