-- ===== src/Logger/Routes.antt =====
-- The way of a log entry in EtherRecorder/src/logger.c: `log_immediately` with the opening and the
-- rotation of files, and `_logger_log`.
use ether_recorder_suite.Prelude.{
  ℕ, zero, suc, ◌+◌, ◌-◌, Bool, true, false, not, ◌&&◌, Option, none, some, List, [], ◌∷◌, ◌++◌,
  ltb, leb, if◌then◌else◌, length, get_or, drop,
}
use ether_recorder_suite.Text.{is_nil, same_nocase}
use ether_recorder_suite.LogQueue.{LogEntry}
use ether_recorder_suite.Logger.{LogOutput, log_output_screen, log_output_file}
use ether_recorder_suite.Logger.Files.{
  LogFile, ThreadLogFile, Logger, max_log_failures, no_thread_file, file_at, set_file,
}

-- What the system answers for a file: whether it has reached its limit, whether it can be closed,
-- renamed and opened after that, and whether it can be opened where it is not open.
pub record FileEnv : Type 0 where
  pub large : Bool
  pub close_ok : Bool
  pub rename_ok : Bool
  pub reopen_ok : Bool
  pub open_ok : Bool

-- The label of the calling thread, the answers for the program's file and then for the thread's,
-- and the lengths of a line before its message in a file and on the screen.
pub record LogEnv : Type 0 where
  pub thread_label : Option (List ℕ)
  pub main : FileEnv
  pub own : FileEnv
  pub file_prefix : ℕ
  pub screen_prefix : ℕ

unfoldable pub rotate_log_file_if_needed : FileEnv → LogFile → Bool × LogFile
rotate_log_file_if_needed env f =
    if not env.large
    then (true, f)
    else if f.fp && not env.close_ok
    then (false, record f { fp = false })
    else if not env.rename_ok
    then (false, record f { fp = false })
    else if not env.reopen_ok
    then (false, record f { fp = false })
    else (true, record f { fp = true })

-- `open_log_file_if_needed` with its count of failures; `none` where the process exits.
unfoldable pub open_log_file_if_needed : FileEnv → LogFile → ℕ → Option (Bool × LogFile × ℕ)
open_log_file_if_needed env f failures =
    if f.fp
    then some (true, f, failures)
    else if env.open_ok
    then some (true, record f { fp = true; first_open = true }, 0)
    else if leb max_log_failures (failures + 1)
    then none
    else some (false, f, failures + 1)

-- Rotation and opening of a file: whether either has gone well.
unfoldable pub ready_file : FileEnv → ℕ → Logger → Option (Bool × Logger)
ready_file env i l =
    let f = file_at i l in
    let rotated = if f.fp then rotate_log_file_if_needed env f else (true, f) in
    elim (open_log_file_if_needed env rotated.1 l.log_failure_count) [
      | none ↦ none
      | some (opened, f', failures) ↦
          some (rotated.0 && opened, record (set_file i f' l) { log_failure_count = failures })
    ]

-- The search for a thread's own file, from the second entry of the table.
unfoldable pub find_own : List ℕ → List ThreadLogFile → ℕ → Option ThreadLogFile
find_own label [] n = none
find_own label ts zero = none
find_own label (t ∷ ts) (suc n) =
    let rest = find_own label ts n in if same_nocase t.thread_label label then some t else rest

unfoldable pub own_file : Option (List ℕ) → Logger → Option ThreadLogFile
own_file none l = none
own_file (some label) l = find_own label (drop 1 l.thread_log_files) (l.thread_log_file_count - 1)

-- How `log_immediately` ends: it returns, the process exits, or it reads a file that is null.
pub data LogResult : Type 0 where
  logged : Logger → LogResult
  exited : LogResult
  null_file : LogResult

-- The file of an entry, where the program's own is `main`.
pub data Chosen : Type 0 where
  chosen : ℕ → Logger → Chosen
  exits : Chosen
  null : Chosen

unfoldable pub choose_file : LogEnv → Option (List ℕ) → ℕ → Logger → Chosen
choose_file env label main l = elim (own_file label l) [
  | none ↦ chosen main l
  | some t ↦ elim t.log_file [
    | none ↦ null
    | some i ↦ elim (ready_file env.own i l) [ none ↦ exits | some (ok, l') ↦ chosen i l' ]
  ]
]

-- A line is dropped if it does not fit 1024 bytes; `stream_print` writes nothing to a null stream.
unfoldable pub publish_to_file : ℕ → ℕ → LogEntry → Logger → Logger
publish_to_file prefix i e l =
    if ltb (prefix + length e.message + 1) 1024 && (file_at i l).fp
    then record l { file_lines = l.file_lines ++ ((i, e) ∷ []) }
    else l

unfoldable pub publish_to_screen : ℕ → LogEntry → Logger → Logger
publish_to_screen prefix e l =
    if ltb (prefix + length e.message + 1) 1024
    then record l { screen_lines = l.screen_lines ++ (e ∷ []) }
    else l

abbrev pub to_file : LogOutput → Bool
to_file log_output_screen = false
to_file _ = true

abbrev pub to_screen : LogOutput → Bool
to_screen log_output_file = false
to_screen _ = true

-- The end of `log_immediately`.
unfoldable pub publish : LogEnv → Bool → ℕ → LogEntry → Logger → Logger
publish env can_log_to_file i e l =
    let current_output = if can_log_to_file then l.log_output else log_output_screen in
    let l' =
      if can_log_to_file && to_file current_output
      then publish_to_file env.file_prefix i e l
      else l in
    if not l.console_logging_suspended && to_screen current_output
    then publish_to_screen env.screen_prefix e l'
    else l'

-- The label that an entry is sorted by.
unfoldable pub label_of : LogEnv → LogEntry → Option (List ℕ)
label_of env e = if is_nil e.thread_label then env.thread_label else some e.thread_label

-- With the program's own file.
unfoldable pub log_with_files : LogEnv → LogEntry → ℕ → Logger → LogResult
log_with_files env e main l = elim (ready_file env.main main l) [
  | none ↦ exited
  | some (can_log_to_file, l1) ↦ elim (choose_file env (label_of env e) main l1) [
    | chosen i l2 ↦ logged (publish env can_log_to_file i e l2)
    | exits ↦ exited
    | null ↦ null_file
  ]
]

-- `log_immediately` of an entry that is not null.
unfoldable pub log_immediately : LogEnv → LogEntry → Logger → LogResult
log_immediately env e l =
    if is_nil e.message
    then logged l
    else elim (get_or l.thread_log_files 0 no_thread_file).log_file [
      | none ↦ logged (publish env false 0 e l)
      | some main ↦
          if is_nil (file_at main l).file_name
          then logged (publish env false main e l)
          else log_with_files env e main l
    ]
