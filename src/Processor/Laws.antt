-- ===== src/Processor/Laws.antt =====
-- A command that sets the level.
use ether_recorder_suite.Prelude.{
  ℕ, zero, suc, ◌≤◌, ◌≡◌, refl, sym, ap, ◌∙◌, true, Option, none, some, List, [], ◌∷◌, ◌++◌, take,
  length, arith, codes, append-nil, Option-cases, inl, inr, Bool, false, ◌&&◌, leb, map, drop,
  bytes_eq, bytes_eq_iff,
}
use ether_recorder_suite.Text.{same_nocase, trim_whitespace, split_at, tolower, is_nil}
use ether_recorder_suite.Text.Trim.{
  all_space, all_space-nil, trim_whitespace-between, starts_bare, ends_bare,
}
use ether_recorder_suite.Text.Cut.{plain}
use ether_recorder_suite.Config.Load.{IsWord, setting, setting-trimmed, setting-split}
use ether_recorder_suite.Logger.{LogLevel}
use ether_recorder_suite.Processor.{
  Reply, level_changed, unknown_level, find_level, log_level_table, process_log_level_command,
  process_command,
}

-- What a command to set the level to a name does.
abbrev pub set_to : Option LogLevel → LogLevel → Reply × LogLevel
set_to none level = (unknown_level, level)
set_to (some new) level = (level_changed new, new)

take_short : (n : ℕ) (l : List ℕ) → length l ≤ n → take n l ≡ l
take_short zero [] h = refl
take_short zero (c ∷ cs) h = absurd (omega arith)
take_short (suc n) [] h = refl
take_short (suc n) (c ∷ cs) h = ap (λ l. c ∷ l) (take_short n cs (omega arith))

process_log_level_command_lem :
    (value : List ℕ) (level : LogLevel)
    → process_log_level_command value level ≡ set_to (find_level value log_level_table) level
unfolding process_log_level_command
process_log_level_command_lem value level = elim (Option-cases (find_level value log_level_table)) [
  | inl unknown ↦ ground (arith, unknown)
  | inr (new, e) ↦ ground (arith, e)
]

process_setting :
    (command left right : List ℕ) (level : LogLevel)
    → split_at 61 (trim_whitespace (take 255 command)) ≡ some (left, right)
    → same_nocase (trim_whitespace left) (codes "log_level") ≡ true
    → process_command (some command) level ≡ process_log_level_command (trim_whitespace right) level
unfolding process_command
process_setting command left right level cut is_level = ground (arith, cut, is_level)

-- Letters and the underscore, among other bytes, but no sign and no space.
unfoldable is_name : List ℕ → Bool
is_name [] = true
is_name (c ∷ cs) = leb 95 (tolower c) && is_name cs

is_name-nocase :
    (a b : List ℕ) → map tolower a ≡ map tolower b → is_name b ≡ true → is_name a ≡ true
unfolding is_name
is_name-nocase [] b e h = refl
is_name-nocase (c ∷ a) [] e h = absurd (ground (arith, e))
is_name-nocase (c ∷ a) (d ∷ b) e h =
    ground (arith, e, h, is_name-nocase a b (ap (drop 1) e) (ground (arith, h)))

plain-name : (a : List ℕ) → is_name a ≡ true → plain a ≡ true
unfolding is_name plain
plain-name [] h = refl
plain-name (c ∷ a) h = ground (arith, h, plain-name a (ground (arith, h)))

starts_bare-name : (a : List ℕ) → is_name a ≡ true → starts_bare a ≡ true
unfolding is_name starts_bare
starts_bare-name [] h = refl
starts_bare-name (c ∷ a) h = ground (arith, h)

ends_bare-name : (a : List ℕ) → is_name a ≡ true → ends_bare a ≡ true
unfolding is_name ends_bare
ends_bare-name [] h = refl
ends_bare-name (c ∷ []) h = ground (arith, h)
ends_bare-name (c ∷ d ∷ a) h = ends_bare-name (d ∷ a) (ground (arith, h))

level_key-name : (key : List ℕ) → same_nocase key (codes "log_level") ≡ true → is_name key ≡ true
unfolding same_nocase is_name
level_key-name key h =
    is_name-nocase key (codes "log_level")
      ((bytes_eq_iff (map tolower key) (map tolower (codes "log_level"))).0 h) refl

level_key-filled : (key : List ℕ) → same_nocase key (codes "log_level") ≡ true → is_nil key ≡ false
unfolding same_nocase bytes_eq
level_key-filled [] h = absurd (ground (arith, h))
level_key-filled (c ∷ cs) h = refl

module _ (key m n value l r : List ℕ) (v : IsWord value) (hm : all_space m ≡ true)
    (hn : all_space n ≡ true) (hl : all_space l ≡ true) (hr : all_space r ≡ true) where
  -- A command of at most 255 bytes that is "log_level = name", the first in any case, with any
  -- spaces at its ends and about the sign, sets the level of the logger to the one that the table
  -- has for the name, and leaves it where the table has none. The name is any text that is not
  -- empty and has no space at its ends.
  pub process_command-set_to :
      (level : LogLevel)
      → same_nocase key (codes "log_level") ≡ true
      → length (l ++ (setting key m n value ++ r)) ≤ 255
      → process_command (some (l ++ (setting key m n value ++ r))) level
        ≡ set_to (find_level value log_level_table) level
  process_command-set_to level is_level short =
      let name = level_key-name key is_level in
      let k : IsWord key = record {
        filled = level_key-filled key is_level;
        starts = starts_bare-name key name;
        ends = ends_bare-name key name;
      } in
      let trimmed : trim_whitespace (take 255 (l ++ (setting key m n value ++ r)))
          ≡ setting key m n value =
        ap trim_whitespace (take_short 255 (l ++ (setting key m n value ++ r)) short)
        ∙ setting-trimmed key m n value k v l r hl hr in
      let cut : split_at 61 (trim_whitespace (take 255 (l ++ (setting key m n value ++ r))))
          ≡ some (key ++ m, n ++ value) =
        ap (split_at 61) trimmed ∙ setting-split key m n value (plain-name key name) hm in
      let left : trim_whitespace (key ++ m) ≡ key =
        trim_whitespace-between [] key m all_space-nil hm k.starts k.ends in
      let right : trim_whitespace (n ++ value) ≡ value =
        ap trim_whitespace (ap (λ t. n ++ t) (sym (append-nil value)))
        ∙ trim_whitespace-between n value [] hn all_space-nil v.starts v.ends in
      process_setting (l ++ (setting key m n value ++ r)) (key ++ m) (n ++ value) level cut
        (ap (λ t. same_nocase t (codes "log_level")) left ∙ is_level)
      ∙ ap (λ t. process_log_level_command t level) right
      ∙ process_log_level_command_lem value level
