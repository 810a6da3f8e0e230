-- ===== src/Tests/Processors.antt =====
-- A text command at a small input.
use ether_recorder_suite.Prelude.{ℕ, ◌≡◌, ◌++◌, refl, some, List, [], ◌∷◌, arith, codes, bytes_eq}
use ether_recorder_suite.Text.{same_nocase}
use ether_recorder_suite.Text.Trim.{all_space, starts_bare, ends_bare}
use ether_recorder_suite.Config.Load.{IsWord, setting}
use ether_recorder_suite.Logger.{log_info, log_warn}
use ether_recorder_suite.Processor.{level_changed, find_level, process_command}
use ether_recorder_suite.Processor.Laws.{process_command-set_to}

abbrev level_key : List ℕ
level_key = codes "LOG_level"

abbrev level_name : List ℕ
level_name = codes "Warn"

level_name-IsWord : IsWord level_name
unfolding starts_bare ends_bare
level_name-IsWord = record { filled = refl; starts = refl; ends = refl }

process_command-set_to_example :
    process_command (some ([] ++ (setting level_key (32 ∷ []) (32 ∷ []) level_name ++ []))) log_info
    ≡ (level_changed log_warn, log_warn)
unfolding all_space same_nocase bytes_eq find_level
process_command-set_to_example =
    process_command-set_to level_key (32 ∷ []) (32 ∷ []) level_name [] [] level_name-IsWord refl
      refl refl refl log_info refl (omega arith)
