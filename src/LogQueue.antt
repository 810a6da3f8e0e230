-- ===== src/LogQueue.antt =====
-- EtherRecorder/src/log_queue.c with inc/log_queue.h: the ring of log entries, each slot with a
-- state. One thread uses the queue here, so that each compare-and-exchange meets the value just
-- read.
pub mod Ring
pub mod Push
pub mod History
pub mod Slots
pub mod Stale
use ether_recorder_suite.Prelude.{
  ℕ, zero, suc, ◌+◌, ◌-◌, ◌*◌, ◌/◌, ◌%◌, ◌^◌, Bool, true, false, not, ◌&&◌, Option, none, some,
  List, [], ◌∷◌, ◌++◌, ltb, leb, ◌==◌, if◌then◌else◌, set, get_or, get_elem?, length, replicate,
  min,
}

-- `LogEntry_T`, its timestamp as one number.
pub record LogEntry : Type 0 where
  pub index : ℕ
  pub level : ℕ
  pub timestamp : ℕ
  pub message : List ℕ
  pub thread_label : List ℕ

pub data SlotState : Type 0 where
  empty reserved written : SlotState

pub record LogQueue : Type 0 where
  pub entries : List LogEntry
  pub head : ℕ
  pub tail : ℕ
  pub slot_states : List SlotState

-- What goes to the log past the queue: an entry, or one of the notices of log_queue.c.
pub data Output : Type 0 where
  entry : LogEntry → Output
  suspending resuming overflow purged : Output

-- The queue with `console_logging_suspended`, what has been logged past the queue and for how many
-- milliseconds the thread has slept.
pub record World : Type 0 where
  pub queue : LogQueue
  pub console_logging_suspended : Bool
  pub out : List Output
  pub slept : ℕ

abbrev pub log : Output → World → World
log o w = record w { out = w.out ++ (o ∷ []) }

abbrev pub sleep_ms : ℕ → World → World
sleep_ms n w = record w { slept = w.slept + n }

-- `LOG_QUEUE_SIZE`
abbrev pub log_queue_size : ℕ
log_queue_size = 0x8000

-- `MAX_RETRY_ATTEMPTS`
abbrev pub max_retry_attempts : ℕ
max_retry_attempts = 100

abbrev pub is_empty : SlotState → Bool
is_empty empty = true
is_empty _ = false

abbrev pub is_written : SlotState → Bool
is_written written = true
is_written _ = false

-- The state of a slot; the code reads none out of range.
abbrev pub slot : LogQueue → ℕ → SlotState
slot q i = get_or q.slot_states i reserved

-- `platform_random_range(0, delay)` is a parameter; its values are at most `delay`.
unfoldable pub backoff_delay : (ℕ → ℕ) → ℕ → World → World
backoff_delay random attempt w =
    if attempt == 0 then w else let delay = 2 ^ min attempt 10 in sleep_ms (delay + random delay) w

-- The code of the queue, for a size: that of the program is `log_queue_size`.
module _ (size : ℕ) where
  unfoldable pub log_queue_init : LogQueue → LogQueue
  log_queue_init q = record q { head = 0; tail = 0; slot_states = replicate size empty }

  -- `used` of `get_queue_capacity`: the capacity is the quotient by the size.
  unfoldable pub get_queue_used : LogQueue → ℕ
  get_queue_used q = if leb q.tail q.head then q.head - q.tail else size - (q.tail - q.head)

  -- The quotient compared with 0.99 and with 0.60.
  unfoldable pub handle_queue_capacity_state : ℕ → World → World
  handle_queue_capacity_state used w =
      if leb (99 * size) (100 * used) && not w.console_logging_suspended
      then sleep_ms 100 (log suspending (record w { console_logging_suspended = true }))
      else if leb (100 * used) (60 * size) && w.console_logging_suspended
      then log resuming (record w { console_logging_suspended = false })
      else w

  abbrev pub next : ℕ → ℕ
  next i = (i + 1) % size

  -- One round of the loop that logs the oldest entries: the slot keeps its state.
  unfoldable pub publish_oldest : World → World
  publish_oldest w = elim (get_elem? w.queue.entries w.queue.tail) [
    | none ↦ w
    | some e ↦ record w {
      queue = record w.queue { tail = next w.queue.tail };
      out = w.out ++ (entry e ∷ []);
    }
  ]

  -- That loop, for at most so many entries.
  unfoldable pub purge : ℕ → World → World
  purge zero w = w
  purge (suc n) w =
      let rest = purge n (publish_oldest w) in if w.queue.head == w.queue.tail then w else rest

  -- The overflow: the queue is full, under the mutex too.
  unfoldable pub handle_overflow : World → World
  unfolding purge
  handle_overflow w = log purged (purge (size / 10) (log overflow w))

  -- The write of an entry into the slot at the head, which moves on.
  unfoldable pub write : LogEntry → World → World
  write e w =
      let q = w.queue in
      record w {
        queue = record q {
          entries = set q.entries q.head e;
          slot_states = set q.slot_states q.head written;
          head = next q.head;
        };
      }

  -- One round of the loop of `log_queue_push`: whether it returns, and the world.
  unfoldable pub try_push : LogEntry → World → Bool × World
  try_push e w =
      if next w.queue.head == w.queue.tail
      then (false, handle_overflow w)
      else if is_empty (slot w.queue w.queue.head)
      then (true, write e w)
      else (false, w)

  -- After the last attempt, under the mutex.
  unfoldable pub push_fallback : LogEntry → World → World
  push_fallback e w = if next w.queue.head == w.queue.tail then log (entry e) w else write e w

  -- The rounds that are left, with the number of attempts so far.
  unfoldable pub push_loop : (ℕ → ℕ) → ℕ → ℕ → LogEntry → World → World
  push_loop random zero attempt e w = push_fallback e w
  push_loop random (suc left) attempt e w =
      let (done, w') = try_push e w in
      elim done [
        | true ↦ w'
        | false ↦ push_loop random left (attempt + 1) e (backoff_delay random (attempt + 1) w')
      ]

  -- `log_queue_push` of an entry that is not null.
  unfoldable pub log_queue_push : (ℕ → ℕ) → LogEntry → World → Bool × World
  log_queue_push random e w = if length e.thread_label == 0 then (false, w) else (
    true,
    push_loop random max_retry_attempts 0 e
        (handle_queue_capacity_state (get_queue_used w.queue) w),
  )

  -- `log_queue_pop` into an entry that is not null. `none` is the loop that reads a slot which is
  -- not written again and again; the inner `none` is the result `false`.
  unfoldable pub log_queue_pop : LogQueue → Option (Option LogEntry × LogQueue)
  log_queue_pop q =
      if q.tail == q.head
      then some (none, q)
      else if is_written (slot q q.tail)
      then some (
        get_elem? q.entries q.tail,
        record q { tail = next q.tail; slot_states = set q.slot_states q.tail empty },
      )
      else none
