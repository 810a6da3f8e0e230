-- ===== src/FileReader/Settings.antt =====
-- The settings of the file reader.
use ether_recorder_suite.Prelude.{
  ℕ, ◌^◌, ◌<◌, ◌≡◌, refl, Bool, none, List, ltb, arith, codes, bytes_eq, Bool-cases, inl, inr,
}
use ether_recorder_suite.Config.{
  ConfigEntry, ℤ, pos, negsuc, find_config_entry, get_config_string, get_config_int,
  get_config_bool,
}
use ether_recorder_suite.Text.{same_nocase}
use ether_recorder_suite.FileReader.{
  FileReaderConfig, FileReadMode, file_read_once, file_read_loop, file_read_watch, to_uint32,
  to_int, read_mode_to_string, find_mode, string_to_read_mode, file_reader_section,
  get_config_read_mode, number, thread_reader_init_config,
}

string_to_read_mode-read_mode_to_string :
    (m : FileReadMode) → string_to_read_mode (read_mode_to_string m) ≡ m
unfolding string_to_read_mode find_mode read_mode_to_string same_nocase bytes_eq
string_to_read_mode-read_mode_to_string file_read_once = refl
string_to_read_mode-read_mode_to_string file_read_loop = refl
string_to_read_mode-read_mode_to_string file_read_watch = refl

to_uint32-to_int : (n : ℕ) → n < 2 ^ 32 → to_uint32 (to_int n) ≡ n
unfolding to_uint32 to_int
to_uint32-to_int n h = elim (Bool-cases (ltb n (2 ^ 31))) [
  | inl e ↦ ground (arith, e, h)
  | inr e ↦ ground (arith, e, h)
]

pub to_uint32_lt : (z : ℤ) → to_uint32 z < 2 ^ 32
unfolding to_uint32
to_uint32_lt (pos n) = omega arith
to_uint32_lt (negsuc n) = omega arith

-- The numbers of a configuration fit 32 bits.
pub record Fits32 (c : FileReaderConfig) : Type 0 where
  pub chunk_size : c.chunk_size < 2 ^ 32
  pub chunk_delay_ms : c.chunk_delay_ms < 2 ^ 32
  pub reload_delay_ms : c.reload_delay_ms < 2 ^ 32
  pub queue_timeout_ms : c.queue_timeout_ms < 2 ^ 32
  pub max_queue_size : c.max_queue_size < 2 ^ 32
  pub progress_interval_ms : c.progress_interval_ms < 2 ^ 32

-- No entry is in the section of the file reader.
abbrev pub Silent : List ConfigEntry → Type 0
Silent entries = (key : List ℕ) → find_config_entry entries file_reader_section key ≡ none

module _ (entries : List ConfigEntry) (silent : Silent entries) where
  number_silent : (key : List ℕ) (n : ℕ) → n < 2 ^ 32 → number entries key n ≡ n
  unfolding number get_config_int get_config_string
  number_silent key n h = ground (arith, silent key, to_uint32-to_int n h)

  get_config_bool_silent :
      (key : List ℕ) (b : Bool) → get_config_bool entries file_reader_section key b ≡ b
  unfolding get_config_bool get_config_string
  get_config_bool_silent key b = ground (arith, silent key)

  mode_silent :
      (c : FileReaderConfig) → string_to_read_mode (get_config_read_mode entries c) ≡ c.read_mode
  unfolding get_config_read_mode get_config_string
  mode_silent c =
      ground
        (arith, silent (codes "read_mode"), string_to_read_mode-read_mode_to_string c.read_mode)

  -- Without settings in its section the file reader keeps its configuration, numbers of 32 bits
  -- included that are negative as an `int`.
  pub thread_reader_init_config_silent :
      (c : FileReaderConfig) → Fits32 c → thread_reader_init_config entries c ≡ c
  unfolding thread_reader_init_config
  thread_reader_init_config_silent c f = ground (
    arith,
    mode_silent c,
    number_silent (codes "chunk_size") c.chunk_size f.chunk_size,
    number_silent (codes "chunk_delay_ms") c.chunk_delay_ms f.chunk_delay_ms,
    number_silent (codes "reload_delay_ms") c.reload_delay_ms f.reload_delay_ms,
    number_silent (codes "queue_timeout_ms") c.queue_timeout_ms f.queue_timeout_ms,
    number_silent (codes "max_queue_size") c.max_queue_size f.max_queue_size,
    get_config_bool_silent (codes "block_when_full") c.block_when_full,
    get_config_bool_silent (codes "log_progress") c.log_progress,
    number_silent (codes "progress_interval_ms") c.progress_interval_ms f.progress_interval_ms,
  )
