-- ===== src/Logger.antt =====
-- EtherRecorder/src/logger.c with inc/logger.h: the levels and outputs with their texts, and where
-- the name of a thread's log file comes from. Files has the tables of files, Routes the way of an
-- entry.
pub mod Parents
pub mod Levels
pub mod Files
pub mod Routes
pub mod Tables
pub mod Shared
pub mod Routed
use ether_recorder_suite.Prelude.{
  ℕ, zero, suc, ◌-◌, Bool, true, false, ◌||◌, Option, none, some, List, [], ◌∷◌, ◌++◌, ◌==◌,
  if◌then◌else◌, codes, take, length,
}
use ether_recorder_suite.Text.{same_nocase, is_nil, platform_strcat, skip_spaces, trim_end}
use ether_recorder_suite.Config.{ConfigEntry, get_config_string}

pub data LogLevel : Type 0 where
  log_trace log_debug log_info log_notice log_warn log_error log_critical log_fatal : LogLevel

-- The number of a level.
abbrev pub level_value : LogLevel → ℕ
level_value log_trace = 0
level_value log_debug = 1
level_value log_info = 2
level_value log_notice = 3
level_value log_warn = 4
level_value log_error = 5
level_value log_critical = 6
level_value log_fatal = 7

pub data LogOutput : Type 0 where
  log_output_screen log_output_file log_output_both : LogOutput

-- The parts of a second, as their number in a second.
abbrev pub LogTimestampGranularity : Type 0
LogTimestampGranularity = ℕ

module _ {A : Type 0} where
  -- A chain of comparisons that do not regard case.
  unfoldable pub first_match : List ℕ → List (List ℕ × A) → A → A
  first_match s [] default_value = default_value
  first_match s ((name, value) ∷ rest) default_value =
      let later = first_match s rest default_value in if same_nocase s name then value else later

  -- The same with a text that may be null.
  unfoldable pub from_string : List (List ℕ × A) → Option (List ℕ) → A → A
  from_string names none default_value = default_value
  from_string names (some s) default_value = first_match s names default_value

abbrev pub granularity_names : List (List ℕ × LogTimestampGranularity)
granularity_names =
    (codes "nanosecond", 1000000000)
    ∷ (codes "microsecond", 1000000)
    ∷ (codes "millisecond", 1000)
    ∷ (codes "centisecond", 100)
    ∷ (codes "decisecond", 10)
    ∷ (codes "second", 1)
    ∷ []

unfoldable pub timestamp_granularity_from_string :
    Option (List ℕ) → LogTimestampGranularity → LogTimestampGranularity
timestamp_granularity_from_string granularity_str default_granularity =
    from_string granularity_names granularity_str default_granularity

abbrev pub level_names : List (List ℕ × LogLevel)
level_names =
    (codes "trace", log_trace)
    ∷ (codes "debug", log_debug)
    ∷ (codes "info", log_info)
    ∷ (codes "notice", log_notice)
    ∷ (codes "warn", log_warn)
    ∷ (codes "warning", log_warn)
    ∷ (codes "error", log_error)
    ∷ (codes "err", log_error)
    ∷ (codes "critical", log_critical)
    ∷ (codes "fatal", log_fatal)
    ∷ (codes "fatal error", log_fatal)
    ∷ []

unfoldable pub log_level_from_string : Option (List ℕ) → LogLevel → LogLevel
log_level_from_string level_str default_level = from_string level_names level_str default_level

unfoldable pub log_level_to_string : LogLevel → List ℕ
log_level_to_string log_debug = codes "DEBUG"
log_level_to_string log_info = codes "INFO "
log_level_to_string log_warn = codes "WARN "
log_level_to_string log_error = codes "ERROR"
log_level_to_string log_fatal = codes "FATAL"
log_level_to_string _ = codes "UNKNN"

abbrev pub output_names : List (List ℕ × LogOutput)
output_names =
    (codes "file", log_output_file)
    ∷ (codes "log_file", log_output_file)
    ∷ (codes "console", log_output_screen)
    ∷ (codes "screen", log_output_screen)
    ∷ (codes "terminal", log_output_screen)
    ∷ (codes "stderr", log_output_screen)
    ∷ (codes "stdout", log_output_screen)
    ∷ (codes "file and console", log_output_both)
    ∷ (codes "file_and_console", log_output_both)
    ∷ (codes "both", log_output_both)
    ∷ (codes "all", log_output_both)
    ∷ []

unfoldable pub log_output_from_string : Option (List ℕ) → LogOutput → LogOutput
log_output_from_string destination_str default_output =
    from_string output_names destination_str default_output

-- The text before the last dot, if there is one: `strrchr` and the zero byte at its place.
unfoldable pub before_last_dot : List ℕ → Option (List ℕ)
before_last_dot [] = none
before_last_dot (c ∷ cs) = elim (before_last_dot cs) [
  | some p ↦ some (c ∷ p)
  | none ↦ if c == 46 then some [] else none
]

abbrev pub logger_section : List ℕ
logger_section = codes "logger"

-- The setting `<label>.log_file_name`, its key cut to the buffer of `max_path_len` bytes.
unfoldable pub log_file_setting : List ConfigEntry → ℕ → List ℕ → Option (List ℕ)
log_file_setting entries max_path_len label =
    get_config_string entries logger_section
      (take (max_path_len - 1) (label ++ codes ".log_file_name"))

-- The loop of `find_parent_log_file` on fuel.
unfoldable pub parent_loop : (List ℕ → Option (List ℕ)) → ℕ → List ℕ → Option (List ℕ)
parent_loop setting zero label = none
parent_loop setting (suc n) label = elim (before_last_dot label) [
  | none ↦ none
  | some parent ↦ elim (setting parent) [
    | some file ↦ some file
    | none ↦ parent_loop setting n parent
  ]
]

unfoldable pub find_parent_log_file : List ConfigEntry → ℕ → List ℕ → Option (List ℕ)
find_parent_log_file entries max_path_len thread_label =
    let parent_label = take (max_path_len - 1) thread_label in
    parent_loop (log_file_setting entries max_path_len) (length parent_label) parent_label

-- The name of the log file that a thread's label is given in the configuration.
unfoldable pub config_log_file : List ConfigEntry → ℕ → List ℕ → Option (List ℕ)
config_log_file entries max_path_len thread_label =
    elim (log_file_setting entries max_path_len thread_label) [
      | some file ↦ some file
      | none ↦ elim (before_last_dot thread_label) [
        | none ↦ none
        | some parent ↦ find_parent_log_file entries max_path_len thread_label
      ]
    ]
