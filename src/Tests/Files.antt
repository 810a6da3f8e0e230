-- ===== src/Tests/Files.antt =====
-- The file reader and the pool of file handles at small inputs.
use ether_recorder_suite.Prelude.{
  ℕ, ◌≡◌, ◌≤◌, refl, true, false, some, List, [], ◌∷◌, arith, codes, bytes_eq,
}
use ether_recorder_suite.Platform.Codes.{platform_error_success}
use ether_recorder_suite.Platform.File.{
  FileSlot, descriptor, at_most, read_error, Seeks, acquire_file_slot, open_slot,
  platform_file_open,
}
use ether_recorder_suite.Platform.Files.{Opened, used_flags, platform_file_open-close}
use ether_recorder_suite.Config.{get_config_string, get_config_int, find_config_entry}
use ether_recorder_suite.Registry.Core.{validate_thread_label, find_thread}
use ether_recorder_suite.Registry.Queues.{queue_of}
use ether_recorder_suite.AppThread.{thread_success}
use ether_recorder_suite.FileReader.{
  FileReaderConfig, reader_config, thread_reader_init_config, number, to_uint32, to_int,
}
use ether_recorder_suite.FileReader.Chunks.{
  Reader, ReaderTurn, finished, read_size, file_reader_thread_function,
}
use ether_recorder_suite.FileReader.Delivery.{Reads, at_end, one_more, Delivered}
use ether_recorder_suite.FileReader.Settings.{Fits32}
use ether_recorder_suite.FileReader.Thread.{file_reader_thread_function-Delivered}
use ether_recorder_suite.Tests.Comms.{env, nobody, server_send, queue, registry, queue-IsValid}

abbrev pool : List FileSlot
pool = record { used = true; is_valid = true } ∷ record { used = false; is_valid = false } ∷ []

abbrev path : List ℕ
path = codes "a.bin"

platform_file_open-close_example :
    Opened pool (platform_file_open (some path) true (descriptor false) pool)
platform_file_open-close_example = platform_file_open-close (some path) true (descriptor false) pool

unfoldable config : FileReaderConfig
config = reader_config [] path server_send

config-Fits32 : Fits32 config
unfolding config reader_config to_uint32 get_config_int get_config_string find_config_entry
config-Fits32 = record {
  chunk_size = omega arith;
  chunk_delay_ms = omega arith;
  reload_delay_ms = omega arith;
  queue_timeout_ms = omega arith;
  max_queue_size = omega arith;
  progress_interval_ms = omega arith;
}

abbrev turn : ℕ → ReaderTurn
turn n = record { shutdown = false; read = at_most n; env = env; meanwhile = nobody }

abbrev turns : List ReaderTurn
turns = turn 8 ∷ turn 8 ∷ []

abbrev reader : Reader
reader = record { unread = codes "hello"; registry = registry; pushed = [] }

abbrev seeks : Seeks
seeks = record { current = some 0; end = some 5; restored = some 0 }

small : (thread_reader_init_config [] config).chunk_size ≤ 1472
unfolding config reader_config thread_reader_init_config number to_uint32 to_int get_config_int
    get_config_string find_config_entry
small = omega arith

reads : Reads (read_size (thread_reader_init_config [] config)) 1 (codes "hello") turns
unfolding config reader_config thread_reader_init_config number to_uint32 to_int get_config_int
    get_config_string find_config_entry read_size
reads =
    one_more (turn 8) 8 refl refl refl (omega arith) (ground arith) (at_end (turn 8) [] 8 refl refl)

opens : (platform_file_open (some path) false (descriptor true) pool).1 ≡ platform_error_success
unfolding platform_file_open acquire_file_slot open_slot
opens = refl

file_reader_thread_function-Delivered_example :
    (pool' : List FileSlot) × (w' : Reader) × (file_reader_thread_function [] config
        (descriptor true)
        pool
        seeks
        turns
        reader
      ≡ some (finished thread_success, pool', w'))
    × (used_flags pool' ≡ used_flags pool)
    × Delivered server_send queue reader w'
unfolding config reader_config validate_thread_label queue_of find_thread bytes_eq
file_reader_thread_function-Delivered_example =
    file_reader_thread_function-Delivered [] config (descriptor true) pool seeks turns reader path
      server_send 1 queue refl refl small opens
      (record { start = 0; size = 5; back = 0; current = refl; end = refl; restored = refl }) refl
      refl refl queue-IsValid (omega arith) reads

abbrev failing : List ReaderTurn
failing = record (turn 8) { read = read_error } ∷ []
