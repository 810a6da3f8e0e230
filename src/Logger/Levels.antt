-- ===== src/Logger/Levels.antt =====
-- The texts of the levels.
use ether_recorder_suite.Prelude.{◌≡◌, refl, Bool, true, false, if◌then◌else◌, some, bytes_eq}
use ether_recorder_suite.Text.{same_nocase, trim_whitespace, skip_spaces, trim_end}
use ether_recorder_suite.Logger.{
  LogLevel, log_trace, log_debug, log_info, log_notice, log_warn, log_error, log_critical,
  log_fatal, log_level_from_string, log_level_to_string, from_string, first_match,
}

-- The levels whose name `log_level_to_string` knows.
abbrev pub has_name : LogLevel → Bool
has_name log_trace = false
has_name log_notice = false
has_name log_critical = false
has_name _ = true

-- The text of a level, trimmed, gives the level again, but for trace, notice and critical, which
-- all have a text that gives the default.
pub log_level_from_string-to_string :
    (level default_level : LogLevel)
    → log_level_from_string (some (trim_whitespace (log_level_to_string level))) default_level
      ≡ (if has_name level then level else default_level)
unfolding log_level_from_string log_level_to_string from_string first_match same_nocase
    trim_whitespace skip_spaces trim_end bytes_eq
log_level_from_string-to_string log_trace d = refl
log_level_from_string-to_string log_debug d = refl
log_level_from_string-to_string log_info d = refl
log_level_from_string-to_string log_notice d = refl
log_level_from_string-to_string log_warn d = refl
log_level_from_string-to_string log_error d = refl
log_level_from_string-to_string log_critical d = refl
log_level_from_string-to_string log_fatal d = refl
