-- ===== src/Tests/Logging.antt =====
-- The logger at small inputs.
use ether_recorder_suite.Prelude.{
  ℕ, zero, suc, ◌≡◌, ◌≤◌, ◌<◌, refl, ap, true, false, none, some, List, [], ◌∷◌, arith, codes,
  bytes_eq, replicate, get_or,
}
use ether_recorder_suite.Text.{same_nocase}
use ether_recorder_suite.Config.{ConfigEntry}
use ether_recorder_suite.LogQueue.{LogEntry}
use ether_recorder_suite.Logger.{
  LogOutput, log_info, log_output_both, log_output_file, config_log_file, log_file_setting,
}
use ether_recorder_suite.Logger.Parents.{ancestors, first_setting, config_log_file_lem}
use ether_recorder_suite.Logger.Files.{
  LogFile, Logger, no_file, no_thread_file, file_at, set_log_thread_file,
}
use ether_recorder_suite.Logger.Tables.{IsValid, thread_at}
use ether_recorder_suite.Logger.Shared.{Linked, set_log_thread_file-Linked}
use ether_recorder_suite.Logger.Routes.{
  FileEnv, LogEnv, logged, log_immediately, own_file, find_own, label_of,
}
use ether_recorder_suite.Logger.Routed.{
  IsReady, Routed, log_immediately-Routed, unopened_file_loses_entry,
}

abbrev settings : List ConfigEntry
settings =
    record {
      section = codes "logger";
      key = codes "SERVER.log_file_name";
      value = codes "server.log";
    }
    ∷ []

config_log_file_lem_example :
    config_log_file settings 260 (codes "SERVER.SEND")
    ≡ first_setting
        (log_file_setting settings 260)
        (codes "SERVER.SEND" ∷ ancestors (codes "SERVER.SEND"))
config_log_file_lem_example = config_log_file_lem settings 260 (codes "SERVER.SEND") (omega arith)

abbrev file : List ℕ → LogFile
file name = record { file_name = name; fp = false; first_open = false; ref_count = 1 }

abbrev logger : Logger
logger = record {
  log_files = file (codes "app.log") ∷ replicate 99 no_file;
  log_file_count = 1;
  thread_log_files = record { thread_label = []; log_file = some 0 } ∷ replicate 100 no_thread_file;
  thread_log_file_count = 1;
  log_level = log_info;
  log_output = log_output_both;
  log_failure_count = 0;
  logging_thread_started = true;
  console_logging_suspended = false;
  file_lines = [];
  screen_lines = [];
}

get_or-replicate : (n j : ℕ) (f : LogFile) → get_or (replicate n f) j f ≡ f
get_or-replicate zero j f = refl
get_or-replicate (suc n) zero f = refl
get_or-replicate (suc n) (suc j) f = get_or-replicate n j f

logger-IsValid : IsValid logger
logger-IsValid = record {
  files = refl;
  threads = refl;
  fewer = omega arith;
  bounded = omega arith;
  blank = blank;
  pointers = pointers;
  distinct = distinct;
}
  where
    blank : (j : ℕ) → 1 ≤ j → (file_at j logger).file_name ≡ []
    blank zero h = absurd (omega arith)
    blank (suc j) h = ap (λ f. f.file_name) (get_or-replicate 99 j no_file)

    pointers : (i j : ℕ) → i < 1 → (thread_at i logger).log_file ≡ some j → j < 1
    pointers zero j h e = ground arith
    pointers (suc i) j h e = absurd (omega arith)

    distinct :
        (j k : ℕ)
        → j < 1
        → k < 1
        → (file_at j logger).file_name ≡ (file_at k logger).file_name
        → j ≡ k
    distinct j k hj hk e = omega arith

set_log_thread_file-Linked_example :
    Linked
      (codes "server.log")
      logger
      (set_log_thread_file 260 (codes "SERVER.SEND") (codes "server.log") logger)
set_log_thread_file-Linked_example =
    set_log_thread_file-Linked 260 (codes "SERVER.SEND") (codes "server.log") logger logger-IsValid
      (omega arith) (omega arith)

abbrev file_env : FileEnv
file_env = record {
  large = false;
  close_ok = true;
  rename_ok = true;
  reopen_ok = true;
  open_ok = true;
}

abbrev shut_env : FileEnv
shut_env = record file_env { open_ok = false }

abbrev log_env : FileEnv → LogEnv
log_env own = record {
  thread_label = none;
  main = file_env;
  own = own;
  file_prefix = 60;
  screen_prefix = 60;
}

ready : IsReady file_env
ready = record { large = refl; open_ok = refl }

abbrev entry : LogEntry
entry = record {
  index = 1;
  level = 2;
  timestamp = 0;
  message = codes "hello";
  thread_label = codes "SERVER.SEND";
}

abbrev two_files : LogOutput → Logger
two_files output = record logger {
  log_files = file (codes "app.log") ∷ file (codes "server.log") ∷ [];
  log_file_count = 2;
  thread_log_files =
      record { thread_label = []; log_file = some 0 }
      ∷ record { thread_label = codes "SERVER.SEND"; log_file = some 1 }
      ∷ [];
  thread_log_file_count = 2;
  log_output = output;
}

log_immediately-Routed_example :
    (l' : Logger) × (log_immediately (log_env file_env) entry (two_files log_output_both)
      ≡ logged l')
    × Routed 1 entry (two_files log_output_both) l'
unfolding own_file find_own label_of same_nocase bytes_eq
log_immediately-Routed_example =
    log_immediately-Routed (log_env file_env) entry (two_files log_output_both) 0 1 ready ready refl
      refl (omega arith) refl refl (omega arith) (omega arith) (omega arith)

unopened_file_loses_entry_example :
    (l' : Logger) × (log_immediately (log_env shut_env) entry (two_files log_output_file)
      ≡ logged l')
    × (l'.file_lines ≡ [])
    × (l'.screen_lines ≡ [])
unfolding own_file find_own label_of same_nocase bytes_eq
unopened_file_loses_entry_example =
    unopened_file_loses_entry (log_env shut_env) entry (two_files log_output_file) 0 1 ready refl
      refl refl (omega arith) refl refl (λ e. absurd (omega (arith, e))) (omega arith) refl
      (omega arith) refl
