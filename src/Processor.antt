-- ===== src/Processor.antt =====
-- EtherRecorder/src/command_processor.c: the text commands. Its `trim_whitespace` does what that of
-- app_config.c does, and stands for it here.
pub mod Laws
use ether_recorder_suite.Prelude.{
  ℕ, Bool, true, false, Option, none, some, List, [], ◌∷◌, if◌then◌else◌, codes, take, bytes_eq,
}
use ether_recorder_suite.Text.{same_nocase, trim_whitespace, split_at}
use ether_recorder_suite.Logger.{
  LogLevel, log_trace, log_debug, log_info, log_notice, log_warn, log_error, log_critical,
  log_fatal,
}

abbrev pub log_level_table : List (List ℕ × LogLevel)
log_level_table =
    (codes "trace", log_trace)
    ∷ (codes "debug", log_debug)
    ∷ (codes "info", log_info)
    ∷ (codes "notice", log_notice)
    ∷ (codes "warn", log_warn)
    ∷ (codes "warning", log_warn)
    ∷ (codes "error", log_error)
    ∷ (codes "critical", log_critical)
    ∷ (codes "fatal", log_fatal)
    ∷ []

-- What is said of a command.
pub data Reply : Type 0 where
  no_command some_command unknown_command unknown_level : Reply
  level_changed : LogLevel → Reply

-- The search of `process_log_level_command`.
unfoldable pub find_level : List ℕ → List (List ℕ × LogLevel) → Option LogLevel
find_level value [] = none
find_level value ((name, level) ∷ rest) =
    let later = find_level value rest in if same_nocase value name then some level else later

-- With the level of the logger, which it changes.
unfoldable pub process_log_level_command : List ℕ → LogLevel → Reply × LogLevel
process_log_level_command value level = elim (find_level value log_level_table) [
  | none ↦ (unknown_level, level)
  | some new ↦ (level_changed new, new)
]

unfoldable pub other_command : List ℕ → Reply
other_command trimmed =
    if bytes_eq trimmed (codes "SOME_COMMAND") then some_command else unknown_command

-- `process_command`. A text with an equals sign is cut there, also where it is another command.
unfoldable pub process_command : Option (List ℕ) → LogLevel → Reply × LogLevel
process_command none level = (no_command, level)
process_command (some command) level =
    let trimmed = trim_whitespace (take 255 command) in
    elim (split_at 61 trimmed) [
      | none ↦ (other_command trimmed, level)
      | some (left, right) ↦
          if same_nocase (trim_whitespace left) (codes "log_level")
          then process_log_level_command (trim_whitespace right) level
          else (other_command (trim_whitespace left), level)
    ]
