-- ===== src/AppThread.antt =====
-- EtherRecorder/src/app_thread.c: which threads are suppressed, and the wait of a thread for the
-- logger; Service has the service of its queue, Life its start and its end.
pub mod Suppression
pub mod Logger
pub mod Service
pub mod Batches
pub mod Life
pub mod Lives
use ether_recorder_suite.Prelude.{
  ℕ, ◌+◌, Bool, true, false, not, ◌&&◌, ◌||◌, Option, none, some, List, [], ◌∷◌, ltb, leb, ◌==◌,
  if◌then◌else◌, codes, bytes_eq,
}
use ether_recorder_suite.Text.{same_nocase, trim_whitespace, is_nil}
use ether_recorder_suite.Registry.State.{ThreadState, running}

pub data ThreadResult : Type 0 where
  thread_success thread_error thread_error_init_failed thread_error_logger_timeout : ThreadResult
  thread_error_mutex_error thread_error_config_error thread_error_queue_error : ThreadResult
  thread_error_invalid_args thread_error_already_exists thread_error_create_failed : ThreadResult
  thread_error_registration_failed thread_error_file_open thread_error_file_read : ThreadResult
  thread_error_out_of_memory thread_error_queue_full thread_error_buffer_overflow : ThreadResult

-- The texts between commas; `strtok` passes over those that are empty.
unfoldable pub fields : List ℕ → List (List ℕ)
fields [] = [] ∷ []
fields (c ∷ cs) = elim (fields cs) [
  | [] ↦ []
  | f ∷ fs ↦ if c == 44 then [] ∷ f ∷ fs else (c ∷ f) ∷ fs
]

-- The loop over the tokens. A token is trimmed as by `trim_whitespace`.
unfoldable pub any_token : List ℕ → List (List ℕ) → Bool
any_token label [] = false
any_token label (f ∷ fs) =
    (not (is_nil f) && same_nocase (trim_whitespace f) label) || any_token label fs

-- `is_thread_suppressed` where `strdup` has its memory; the arguments may be null.
unfoldable pub is_thread_suppressed : Option (List ℕ) → Option (List ℕ) → Bool
is_thread_suppressed none label = false
is_thread_suppressed (some suppressed_list) none = false
is_thread_suppressed (some suppressed_list) (some label) =
    not (is_nil label) && any_token label (fields suppressed_list)

abbrev pub is_running : ThreadState → Bool
is_running running = true
is_running _ = false

-- The loop of `wait_for_logger`, with what its successive polls read: the time that has elapsed.
unfoldable pub logger_loop : ℕ → List ThreadState → Option ℕ
logger_loop elapsed [] = if ltb elapsed 5000 then none else some elapsed
logger_loop elapsed (s ∷ polls) =
    let rest = logger_loop (elapsed + 10) polls in
    if ltb elapsed 5000 then if is_running s then some elapsed else rest else some elapsed

unfoldable pub wait_for_logger : List ℕ → List ThreadState → Option ThreadResult
wait_for_logger label polls =
    if bytes_eq label (codes "LOGGER") then some thread_success else elim (logger_loop 0 polls) [
      | none ↦ none
      | some elapsed ↦
          some (if leb 5000 elapsed then thread_error_logger_timeout else thread_success)
    ]
