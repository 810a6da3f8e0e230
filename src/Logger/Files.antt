-- ===== src/Logger/Files.antt =====
-- The tables of log files in EtherRecorder/src/logger.c: who logs to which file, opening and
-- rotation. What the system answers for a file is an argument; the index of a file stands for its
-- address.
use ether_recorder_suite.Prelude.{
  ℕ, zero, suc, ◌+◌, ◌-◌, Bool, true, false, not, ◌&&◌, ◌||◌, Option, none, some, List, [], ◌∷◌,
  ◌++◌, ltb, leb, ◌==◌, if◌then◌else◌, codes, take, set, get_or, bytes_eq,
}
use ether_recorder_suite.Text.{is_nil, platform_strcat, skip_spaces, trim_end}
use ether_recorder_suite.Config.{ConfigEntry, get_config_string}
use ether_recorder_suite.LogQueue.{LogEntry}
use ether_recorder_suite.Logger.{
  LogLevel, LogOutput, log_output_screen, logger_section, config_log_file, log_level_from_string,
  log_output_from_string,
}

-- `fp` tells whether the file is open.
pub record LogFile : Type 0 where
  pub file_name : List ℕ
  pub fp : Bool
  pub first_open : Bool
  pub ref_count : ℕ

pub record ThreadLogFile : Type 0 where
  pub thread_label : List ℕ
  pub log_file : Option ℕ

-- The static variables of logger.c, with the lines that have gone to the files and to the screen.
pub record Logger : Type 0 where
  pub log_files : List LogFile
  pub log_file_count : ℕ
  pub thread_log_files : List ThreadLogFile
  pub thread_log_file_count : ℕ
  pub log_level : LogLevel
  pub log_output : LogOutput
  pub log_failure_count : ℕ
  pub logging_thread_started : Bool
  pub console_logging_suspended : Bool
  pub file_lines : List (ℕ × LogEntry)
  pub screen_lines : List LogEntry

-- `MAX_THREADS`
abbrev pub max_threads : ℕ
max_threads = 100

abbrev pub max_log_failures : ℕ
max_log_failures = 100

abbrev pub no_file : LogFile
no_file = record { file_name = []; fp = false; first_open = false; ref_count = 0 }

abbrev pub no_thread_file : ThreadLogFile
no_thread_file = record { thread_label = []; log_file = none }

abbrev pub file_at : ℕ → Logger → LogFile
file_at i l = get_or l.log_files i no_file

abbrev pub set_file : ℕ → LogFile → Logger → Logger
set_file i f l = record l { log_files = set l.log_files i f }

abbrev is_slash : ℕ → Bool
is_slash c = (c == 47) || (c == 92)

-- The loops of `sanitise_path` (EtherRecorder/src/utils.c).
unfoldable pub strip_slashes : List ℕ → List ℕ
strip_slashes [] = []
strip_slashes (c ∷ cs) =
    let rest = strip_slashes cs in if is_slash c && is_nil rest then [] else c ∷ rest

unfoldable pub separators : List ℕ → List ℕ
separators [] = []
separators (c ∷ cs) = (if is_slash c then 47 else c) ∷ separators cs

unfoldable pub sanitise_path : List ℕ → List ℕ
sanitise_path path = separators (strip_slashes (skip_spaces (trim_end path)))

unfoldable pub construct_log_file_name : ℕ → List ℕ → List ℕ → List ℕ
construct_log_file_name size path name =
    sanitise_path
      (if is_nil path then platform_strcat [] name size else take (size - 1) (path ++ (47 ∷ name)))

-- The search of `set_log_thread_file` among the files in use.
unfoldable pub find_file : List ℕ → List LogFile → ℕ → Option ℕ
find_file filename fs zero = none
find_file filename [] (suc n) = none
find_file filename (f ∷ fs) (suc n) = elim (bytes_eq f.file_name filename) [
  | true ↦ some 0
  | false ↦ elim (find_file filename fs n) [ none ↦ none | some i ↦ some (suc i) ]
]

-- The file of that name, with one more reference, or a new one. The name of a new file is appended
-- to what its slot holds.
unfoldable pub find_or_create : ℕ → List ℕ → Logger → Option ℕ × Logger
find_or_create max_path_len filename l = elim (find_file filename l.log_files l.log_file_count) [
  | some i ↦
      (some i, set_file i (record (file_at i l) { ref_count = (file_at i l).ref_count + 1 }) l)
  | none ↦
      if ltb l.log_file_count max_threads
      then (
        some l.log_file_count,
        record (set_file l.log_file_count
            (record {
              file_name =
                  platform_strcat (file_at l.log_file_count l).file_name filename max_path_len;
              fp = false;
              first_open = false;
              ref_count = 1;
            })
            l) { log_file_count = l.log_file_count + 1 },
      )
      else (none, l)
]

unfoldable pub set_log_thread_file : ℕ → List ℕ → List ℕ → Logger → Logger
set_log_thread_file max_path_len label filename l =
    if leb max_threads l.thread_log_file_count
    then l
    else let (file, l') = find_or_create max_path_len filename l in
      record l' {
        thread_log_files =
            set l'.thread_log_files l'.thread_log_file_count
              (record { thread_label = platform_strcat [] label max_path_len; log_file = file });
        thread_log_file_count = l'.thread_log_file_count + 1;
      }

unfoldable pub set_thread_log_file_from_config : List ConfigEntry → ℕ → List ℕ → Logger → Logger
set_thread_log_file_from_config entries max_path_len thread_label l =
    let l' = record l {
      log_level =
          log_level_from_string (get_config_string entries logger_section (codes "log_level"))
            l.log_level;
    } in
    elim (config_log_file entries max_path_len thread_label) [
      | none ↦ l'
      | some file ↦ elim (get_config_string entries logger_section (codes "log_file_path")) [
        | none ↦ set_log_thread_file max_path_len thread_label file l'
        | some path ↦
            set_log_thread_file max_path_len thread_label
              (construct_log_file_name max_path_len path file) l'
      ]
    ]

-- What `init_logger_from_config` gives as the name of the program's own log file.
unfoldable pub main_file_name : List ConfigEntry → ℕ → List ℕ
main_file_name entries max_path_len =
    let name : List ℕ = elim (get_config_string entries logger_section (codes "log_file_name")) [
      | none ↦ codes "log_file.log"
      | some n ↦ n
    ] in
    elim (get_config_string entries logger_section (codes "log_file_path")) [
      | none ↦ sanitise_path (take (max_path_len - 1) name)
      | some path ↦
          if is_nil path
          then sanitise_path (take (max_path_len - 1) name)
          else sanitise_path (construct_log_file_name max_path_len path name)
    ]

-- Whether it has a name for a file.
unfoldable pub has_main_file : List ConfigEntry → Bool
has_main_file entries = elim (get_config_string entries logger_section (codes "log_file_name")) [
  | none ↦ true
  | some n ↦ not (is_nil n)
]

-- `init_logger_from_config`, without the settings that only the format of a line reads.
unfoldable pub init_logger_from_config : List ConfigEntry → ℕ → Logger → Bool × Logger
init_logger_from_config entries max_path_len l =
    let success = has_main_file entries in
    let main_log = record (file_at l.log_file_count l) {
      file_name = main_file_name entries max_path_len;
      fp = false;
      first_open = false;
    } in
    let l' =
      if success
      then record (set_file l.log_file_count main_log l) {
        log_file_count = l.log_file_count + 1;
        thread_log_files =
            set l.thread_log_files 0
              (record { thread_label = []; log_file = some l.log_file_count });
      }
      else l in
    (
      success,
      record l' {
        log_output =
            log_output_from_string
              (get_config_string entries logger_section (codes "log_destination"))
              log_output_screen;
        logging_thread_started = true;
        thread_log_file_count = l'.thread_log_file_count + 1;
      },
    )

-- The loop of `logger_close` over the files in use.
unfoldable pub close_files : List LogFile → ℕ → List LogFile
close_files fs zero = fs
close_files [] (suc n) = []
close_files (f ∷ fs) (suc n) = record f { fp = false } ∷ close_files fs n

-- `logger_close` without the wait for the thread.
unfoldable pub logger_close : Logger → Logger
logger_close l = record l {
  log_files = close_files l.log_files l.log_file_count;
  log_file_count = 0;
  thread_log_file_count = 0;
}
