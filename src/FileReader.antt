-- ===== src/FileReader.antt =====
-- EtherRecorder/src/file_reader.c with inc/file_reader.h: the configuration of the file reader;
-- Chunks has its thread.
pub mod Chunks
pub mod Delivery
pub mod Ends
pub mod Thread
pub mod Settings
use ether_recorder_suite.Prelude.{
  ℕ, ◌-◌, ◌%◌, ◌^◌, Bool, true, false, Option, none, some, List, [], ◌∷◌, ltb, if◌then◌else◌, codes,
}
use ether_recorder_suite.Text.{same_nocase}
use ether_recorder_suite.Config.{
  ConfigEntry, ℤ, pos, negsuc, get_config_string, get_config_int, get_config_bool,
}
use ether_recorder_suite.Registry.Core.{Label}

pub data FileReadMode : Type 0 where
  file_read_once file_read_loop file_read_watch : FileReadMode

pub record FileReaderConfig : Type 0 where
  pub filepath : Option (List ℕ)
  pub foreign_thread_label : Option Label
  pub read_mode : FileReadMode
  pub chunk_size : ℕ
  pub chunk_delay_ms : ℕ
  pub reload_delay_ms : ℕ
  pub queue_timeout_ms : ℕ
  pub max_queue_size : ℕ
  pub block_when_full : Bool
  pub log_progress : Bool
  pub progress_interval_ms : ℕ

-- An `int` as a `uint32_t` and back.
unfoldable pub to_uint32 : ℤ → ℕ
to_uint32 (pos n) = n % 2 ^ 32
to_uint32 (negsuc n) = 2 ^ 32 - 1 - n % 2 ^ 32

unfoldable pub to_int : ℕ → ℤ
to_int n = if ltb n (2 ^ 31) then pos n else negsuc (2 ^ 32 - 1 - n)

-- `FILE_READ_MODE_STRINGS`
unfoldable pub read_mode_to_string : FileReadMode → List ℕ
read_mode_to_string file_read_once = codes "FILE_READ_ONCE"
read_mode_to_string file_read_loop = codes "FILE_READ_LOOP"
read_mode_to_string file_read_watch = codes "FILE_READ_WATCH"

abbrev pub read_modes : List FileReadMode
read_modes = file_read_once ∷ file_read_loop ∷ file_read_watch ∷ []

-- The loop of `string_to_read_mode`.
unfoldable pub find_mode : List ℕ → List FileReadMode → FileReadMode
find_mode file_read_mode [] = file_read_once
find_mode file_read_mode (m ∷ ms) =
    let rest = find_mode file_read_mode ms in
    if same_nocase file_read_mode (read_mode_to_string m) then m else rest

unfoldable pub string_to_read_mode : List ℕ → FileReadMode
string_to_read_mode file_read_mode = find_mode file_read_mode read_modes

abbrev pub file_reader_section : List ℕ
file_reader_section = codes "file_reader"

unfoldable pub get_config_read_mode : List ConfigEntry → FileReaderConfig → List ℕ
get_config_read_mode entries config =
    elim (get_config_string entries file_reader_section (codes "read_mode")) [
      | none ↦ read_mode_to_string config.read_mode
      | some v ↦ v
    ]

-- A number of 32 bits out of the section.
unfoldable pub number : List ConfigEntry → List ℕ → ℕ → ℕ
number entries key n = to_uint32 (get_config_int entries file_reader_section key (to_int n))

-- `thread_reader_init_config` of a configuration that is not null.
unfoldable pub thread_reader_init_config : List ConfigEntry → FileReaderConfig → FileReaderConfig
thread_reader_init_config entries config = record config {
  read_mode = string_to_read_mode (get_config_read_mode entries config);
  chunk_size = number entries (codes "chunk_size") config.chunk_size;
  chunk_delay_ms = number entries (codes "chunk_delay_ms") config.chunk_delay_ms;
  reload_delay_ms = number entries (codes "reload_delay_ms") config.reload_delay_ms;
  queue_timeout_ms = number entries (codes "queue_timeout_ms") config.queue_timeout_ms;
  max_queue_size = number entries (codes "max_queue_size") config.max_queue_size;
  block_when_full =
      get_config_bool entries file_reader_section (codes "block_when_full") config.block_when_full;
  log_progress =
      get_config_bool entries file_reader_section (codes "log_progress") config.log_progress;
  progress_interval_ms = number entries (codes "progress_interval_ms") config.progress_interval_ms;
}

-- The configuration that `get_file_reader_thread` makes at its first call.
unfoldable pub reader_config : List ConfigEntry → List ℕ → Label → FileReaderConfig
reader_config entries filepath target_thread_label = record {
  filepath = some filepath;
  foreign_thread_label = some target_thread_label;
  read_mode = file_read_once;
  chunk_size = 0;
  chunk_delay_ms =
      to_uint32 (get_config_int entries (codes "server") (codes "file_chunk_delay_ms") (pos 0));
  reload_delay_ms = 1000;
  queue_timeout_ms = 5000;
  max_queue_size = 0;
  block_when_full = true;
  log_progress = true;
  progress_interval_ms = 1000;
}
