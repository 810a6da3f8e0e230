-- ===== src/Lib.antt =====
-- A verification library for the EtherRecorder suite, a program of several threads that relays data
-- between sockets, reads commands from a socket and logs.
--
-- Parts and files. An operation of C becomes a function that takes the state and returns the new
-- one beside its result; what the operating system or another thread decides is an argument.
--
-- - Prelude: Boolean tests, lists with native indices, texts as the lists of their bytes.
-- - Platform: the codes of PlatformLayer/inc/platform_error.h and platform_sync.h, and the event
--   objects of PlatformLayer/posix/src/posix_sync.c. `event_wait` is `platform_event_wait`; its
--   sleeps on the condition variable are a sequence without end, of which each says how long it
--   takes, how it ends and how the others leave the flag. Of `pthread_cond_timedwait` it is taken
--   that a call at or after its deadline gives ETIMEDOUT, and of the clock that it goes forward
--   during a sleep. With no deadline a list of sleeps is followed by one that lasts for ever, the
--   result `none`.
-- - Fifo, RingArray: the bounded queue that a ring promises, and the arithmetic of rings.
-- - MessageQueue: EtherRecorder/src/message_queue.c, `push` for `message_queue_push` and `pop` for
--   `message_queue_pop`. What the other threads do to the queue during a wait is a function.
-- - Registry: EtherRecorder/src/thread_registry.c. `Registry` is `g_registry`, its list a list of
--   entries and its mutex the number of times that the calling thread holds it. State has the
--   states, Core the data and the searches, Ops registration, states and removal, Queues the queues
--   of messages, Waits the waits for threads, Health the checks of threads. Reach has the calls as
--   a step relation.
-- - Command: EtherRecorder/src/command_interface.c. Wire has the words and packets, Context the
--   state machine, Connection the loop `handle_client_connection` over a list of rounds, each with
--   the bytes that its receive gives.
-- - LogQueue: EtherRecorder/src/log_queue.c for one thread at the queue, over the size of the ring:
--   LOG_QUEUE_SIZE in the program. Ring has its contents, Push and History what a push keeps, Slots
--   the states of the slots, Stale what an overflow leaves in them.
-- - Text, Config: EtherRecorder/src/app_config.c, with the texts of
--   PlatformLayer/posix/src/posix_string.c. `load_config` takes the bytes of the file, without zero
--   bytes; Load has its lines, File a whole file, Values the look-up. A look-up that gives the
--   default is `none` for texts.
-- - Logger: EtherRecorder/src/logger.c. Logger has the levels and the search for the name of a
--   thread's log file (Parents), Files the tables of files (Tables, Shared), Routes the way of an
--   entry (Routed). MAX_PATH_LEN, which depends on the platform, is an argument.
-- - AppThread: EtherRecorder/src/app_thread.c: `is_thread_suppressed`, `wait_for_logger` over what
--   its polls read, and `service_thread_queue` over the turns of its loop, each with the clock and
--   what the calls of the registry meet. Life has `thread_wrapper`, in which every thread lives,
--   with `app_thread_create` and the watchdog, Lives how a thread ends. The registry points to a
--   configuration on the stack of the thread, where the model has a copy: a return that leaves the
--   entry behind is a value of its own, `dangling`, and nothing is said of what follows.
-- - Socket: the waits, sends and receives of PlatformLayer/posix/src/posix_sockets.c, over what the
--   system calls give.
-- - Comm: EtherRecorder/src/comm_context.c. Relay has `process_relay_data`, Receive and Send the
--   two threads of a connection over the turns of their loops, Relayed, Timeouts, Sent and Stream
--   what they do. The count of timeouts is one for all connections: what the others do to it is an
--   argument of each round. A relay ends in the queue from which the sending thread of the other
--   connection pops.
-- - FileReader: EtherRecorder/src/file_reader.c, over Platform.File, the handles of
--   PlatformLayer/posix/src/posix_file.c. Chunks has the thread over the turns of its loop,
--   Delivery and Ends what it pushes, Thread a whole run, Settings its configuration. A read that
--   is larger than the buffer on the stack is the outcome `overrun`, behind which nothing is
--   defined.
-- - Manager: the configurations of EtherRecorder/src/client_manager.c and server_manager.c, and
--   `attempt_connection` over its rounds (Backoff) and the loop that binds (Binding).
-- - Processor: EtherRecorder/src/command_processor.c.
--
-- Threads reach their queues through the registry: `push_message` and `pop_message` find the queue
-- under the lock of the registry and use it after they have released the lock.
--
-- Bounds. Numbers are natural; counters of 32 bits are taken modulo 2^32 where they can wrap, and
-- the indices of a queue stay below its size, which is below 2^31. Fuel is taken by `timed_loop`,
-- whose fuel is the time to the deadline in nanoseconds, of which each sleep takes one at least,
-- `decimal`, which writes at most ten digits, enough for 32 bits, `file_lines`, whose fuel is the
-- length of the file, no less than its number of lines, `parent_loop`, whose fuel is the length of
-- the label, which each round shortens, and `relay_loop`, which makes at most two of its three
-- rounds; the loops that wait recur on the list of what they meet, and say so where it ends first.
--
-- Not modelled: the texts of the log's lines, memory that is freed, the Windows files, and the
-- parts that only wrap system calls. A queue is used without another thread removing its entry in
-- between.
pub mod Prelude
pub mod Platform
pub mod Fifo
pub mod RingArray
pub mod MessageQueue
pub mod Registry
pub mod Command
pub mod LogQueue
pub mod Text
pub mod Config
pub mod Logger
pub mod AppThread
pub mod Socket
pub mod Comm
pub mod FileReader
pub mod Manager
pub mod Processor
pub mod Tests
