-- ===== src/FileReader/Chunks.antt =====
-- `file_reader_thread_function`: the chunks of a file as messages for another thread's queue.
use ether_recorder_suite.Prelude.{
  ℕ, Bool, true, false, Option, none, some, List, [], ◌∷◌, ◌++◌, if◌then◌else◌, ltb, ◌==◌, length,
}
use ether_recorder_suite.Text.{is_nil}
use ether_recorder_suite.Platform.Codes.{platform_error_success}
use ether_recorder_suite.Platform.File.{
  FileSlot, OpenCall, ReadCall, Seeks, platform_file_open, platform_file_close, platform_file_read,
  platform_file_get_size,
}
use ether_recorder_suite.Config.{ConfigEntry}
use ether_recorder_suite.MessageQueue.{Message, Meanwhile, file_chunk, message_content_size}
use ether_recorder_suite.Registry.Core.{Label, Registry, Env}
use ether_recorder_suite.Registry.Queues.{push_message}
use ether_recorder_suite.AppThread.{
  ThreadResult, thread_success, thread_error_file_open, thread_error_file_read,
  thread_error_buffer_overflow, thread_error_queue_full,
}
use ether_recorder_suite.AppThread.Life.{is_ok}
use ether_recorder_suite.FileReader.{FileReaderConfig, thread_reader_init_config}

-- The bytes of the file that are not read yet, the registry and the messages that have been pushed.
pub record Reader : Type 0 where
  pub unread : List ℕ
  pub registry : Registry
  pub pushed : List Message

pub record ReaderTurn : Type 0 where
  pub shutdown : Bool
  pub read : ReadCall
  pub env : Env
  pub meanwhile : Meanwhile

abbrev pub chunk : List ℕ → Message
chunk bytes = record { type = file_chunk; content_size = length bytes; content = bytes }

-- The size of a read. Zero is the size of a message.
unfoldable pub read_size : FileReaderConfig → ℕ
read_size config = if ltb 0 config.chunk_size then config.chunk_size else message_content_size

-- How the thread ends. The buffer of a read, on the stack, has the size of a message: a read of
-- more bytes overruns it, and nothing is known of what follows.
pub data Outcome : Type 0 where
  finished : ThreadResult → Outcome
  overrun : Outcome

-- The part of a round behind the read; with an outcome the loop ends.
unfoldable pub send_chunk :
    Label → ℕ → ReaderTurn → List ℕ → Reader → Option (Option Outcome × Reader)
send_chunk label timeout_ms turn bytes w =
    if is_nil bytes
    then some (some (finished thread_success), w)
    else if ltb message_content_size (length bytes)
    then some (some (finished thread_error_buffer_overflow), w)
    else elim (push_message turn.env (some label) (chunk bytes) timeout_ms turn.meanwhile
        w.registry) [
          | none ↦ none
          | some (code, r) ↦
              if is_ok code
              then some (none, record w { registry = r; pushed = w.pushed ++ (chunk bytes ∷ []) })
              else some (some (finished thread_error_queue_full), record w { registry = r })
        ]

-- A round that is not shut down. A read that fails is taken to have written no byte.
unfoldable pub read_chunk :
    Option ℕ
    → List FileSlot
    → Label
    → ℕ
    → ℕ
    → ReaderTurn
    → Reader
    → Option (Option Outcome × Reader)
read_chunk file pool label size timeout_ms turn w =
    let (code, bytes, unread) = platform_file_read file pool size turn.read w.unread in
    if ltb message_content_size (length bytes)
    then some (some overrun, record w { unread = unread })
    else if code == platform_error_success
    then send_chunk label timeout_ms turn bytes (record w { unread = unread })
    else some (some (finished thread_error_file_read), w)

-- The loop over its turns; `none` where they end first, or in a push that waits for ever.
unfoldable pub chunk_loop :
    Option ℕ → List FileSlot → Label → ℕ → ℕ → List ReaderTurn → Reader → Option (Outcome × Reader)
chunk_loop file pool label size timeout_ms [] w = none
chunk_loop file pool label size timeout_ms (turn ∷ turns) w = elim turn.shutdown [
  | true ↦ some (finished thread_success, w)
  | false ↦ elim (read_chunk file pool label size timeout_ms turn w) [
    | none ↦ none
    | some (none, w') ↦ chunk_loop file pool label size timeout_ms turns w'
    | some (some outcome, w') ↦ some (outcome, w')
  ]
]

-- What is behind the opening: the file is closed on every path but an overrun.
unfoldable pub read_file :
    FileReaderConfig
    → Label
    → Option ℕ
    → List FileSlot
    → Seeks
    → List ReaderTurn
    → Reader
    → Option (Outcome × List FileSlot × Reader)
read_file config label file pool seeks turns w =
    if (platform_file_get_size file pool seeks).0 == platform_error_success
    then elim (chunk_loop file pool label (read_size config) config.queue_timeout_ms turns w) [
      | none ↦ none
      | some (finished res, w') ↦ some (finished res, platform_file_close file pool, w')
      | some (overrun, w') ↦ some (overrun, pool, w')
    ]
    else some (finished thread_error_file_read, platform_file_close file pool, w)

-- `file_reader_thread_function` of a configuration that is not null, with the entries of the
-- program's configuration. Its null result is 0, the number of `thread_success`.
unfoldable pub file_reader_thread_function :
    List ConfigEntry
    → FileReaderConfig
    → OpenCall
    → List FileSlot
    → Seeks
    → List ReaderTurn
    → Reader
    → Option (Outcome × List FileSlot × Reader)
file_reader_thread_function entries config call pool seeks turns w = elim config.filepath [
  | none ↦ some (finished thread_success, pool, w)
  | some filepath ↦ elim config.foreign_thread_label [
    | none ↦ some (finished thread_success, pool, w)
    | some label ↦
        let config' = thread_reader_init_config entries config in
        let (file, code, pool') = platform_file_open (some filepath) false call pool in
        elim file [
          | none ↦ some (finished thread_error_file_open, pool', w)
          | some i ↦ read_file config' label (some i) pool' seeks turns w
        ]
  ]
]
