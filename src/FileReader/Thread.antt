-- ===== src/FileReader/Thread.antt =====
-- The thread of the file reader as a whole.
use ether_recorder_suite.Prelude.{
  ℕ, ◌+◌, ◌≤◌, ◌<◌, ◌≡◌, true, false, inl, inr, Option, none, some, List, arith, Option-cases,
}
use ether_recorder_suite.Platform.Codes.{platform_error_success}
use ether_recorder_suite.Platform.File.{
  FileSlot, OpenCall, Seeks, is_open, platform_file_open, platform_file_close,
  platform_file_get_size,
}
use ether_recorder_suite.Platform.Files.{used_flags, platform_file_open-close}
use ether_recorder_suite.Config.{ConfigEntry}
use ether_recorder_suite.MessageQueue.{MessageQueue}
use ether_recorder_suite.MessageQueue.Ring.{IsValid, used}
use ether_recorder_suite.Registry.Core.{Label, validate_thread_label}
use ether_recorder_suite.Registry.Queues.{queue_of}
use ether_recorder_suite.AppThread.{thread_success}
use ether_recorder_suite.FileReader.{FileReaderConfig, thread_reader_init_config}
use ether_recorder_suite.FileReader.Chunks.{
  Reader, ReaderTurn, finished, read_size, read_file, file_reader_thread_function,
}
use ether_recorder_suite.FileReader.Delivery.{Reads, Delivered, chunk_loop-Delivered}

read_size_le : (c : FileReaderConfig) → c.chunk_size ≤ 1472 → read_size c ≤ 1472
unfolding read_size
read_size_le c h = ground arith

-- The size of a file that can be asked for.
pub record Sized (seeks : Seeks) : Type 0 where
  pub start : ℕ
  pub size : ℕ
  pub back : ℕ
  pub current : seeks.current ≡ some start
  pub end : seeks.end ≡ some size
  pub restored : seeks.restored ≡ some back

-- The file reader of a configuration whose chunks are not larger than a message delivers a file, if
-- it can be opened and is read to its end without an error or a shutdown, whatever the sizes of the
-- reads, into the queue of a thread that has room for the chunks and that nobody else uses
-- meanwhile: the thread ends with success, the queue has all the bytes in order as its last
-- messages, and the handle is free again.
pub file_reader_thread_function-Delivered :
    (entries : List ConfigEntry) (config : FileReaderConfig) (call : OpenCall)
    (pool : List FileSlot) (seeks : Seeks) (turns : List ReaderTurn) (w : Reader) (path : List ℕ)
    (l : Label) (k : ℕ) (q : MessageQueue)
    → config.filepath ≡ some path
    → config.foreign_thread_label ≡ some l
    → (thread_reader_init_config entries config).chunk_size ≤ 1472
    → (platform_file_open (some path) false call pool).1 ≡ platform_error_success
    → Sized seeks
    → validate_thread_label (some l) ≡ true
    → w.registry.initialized ≡ true
    → queue_of l w.registry ≡ some q
    → IsValid q
    → used q + k < q.max_size
    → Reads (read_size (thread_reader_init_config entries config)) k w.unread turns
    → (pool' : List FileSlot) × (w' : Reader) × (file_reader_thread_function entries config call
          pool seeks turns w
        ≡ some (finished thread_success, pool', w'))
      × (used_flags pool' ≡ used_flags pool)
      × Delivered l q w w'
unfolding file_reader_thread_function read_file platform_file_get_size
file_reader_thread_function-Delivered entries config call pool seeks turns w path l k q named
      labelled small opens sized label i found v room reads =
    let config' = thread_reader_init_config entries config in
    let x = platform_file_open (some path) false call pool in
    let o = platform_file_open-close (some path) false call pool in
    let live : is_open x.0 x.2 ≡ true = ground (arith, o.valid, opens) in
    elim (Option-cases x.0) [
      | inl not_open ↦ absurd (null_is_shut x.0 x.2 not_open live)
      | inr (n, got) ↦
          let (w', run, d) =
            chunk_loop-Delivered x.0 x.2 l (read_size config') config'.queue_timeout_ms k turns
              w.unread w.registry w.pushed q live (read_size_pos config')
              (read_size_le config' small) label i found v room reads in
          (
            platform_file_close x.0 x.2,
            w',
            ground
                (arith, named, labelled, got, live, sized.current, sized.end, sized.restored, run),
            o.flags,
            d,
          )
    ]
  where
    null_is_shut : (f : Option ℕ) (p : List FileSlot) → f ≡ none → is_open f p ≡ true → ⊥
    null_is_shut f p e h = unfold is_open in ground (arith, e, h)

    read_size_pos : (c : FileReaderConfig) → 0 < read_size c
    read_size_pos c = unfold read_size in ground arith
