-- ===== src/MessageQueue.antt =====
-- EtherRecorder/src/message_queue.c with inc/message_queue_types.h: the ring buffer that carries
-- messages between threads. Lines of the log are left out.
pub mod Ring
pub mod Refine
pub mod Waits
pub mod Traces
use ether_recorder_suite.Prelude.{
  ℕ, ◌+◌, ◌%◌, Bool, true, false, not, Option, none, some, List, ◌==◌, if◌then◌else◌, set,
  get_elem?,
}
use ether_recorder_suite.Platform.Codes.{PlatformErrorCode, truthy}
use ether_recorder_suite.Platform.Event.{Event, Wakeups, event_set, event_wait}

pub data MessageType : Type 0 where
  relay test file_chunk control payload : MessageType

-- `MESSAGE_CONTENT_SIZE`
abbrev pub message_content_size : ℕ
message_content_size = 1472

-- `Message_T` with its header's fields; `content` is the bytes that are in use.
pub record Message : Type 0 where
  pub type : MessageType
  pub content_size : ℕ
  pub content : List ℕ

-- `head`, `tail` and `max_size` are `int32_t`.
pub record MessageQueue : Type 0 where
  pub entries : List Message
  pub head : ℕ
  pub tail : ℕ
  pub max_size : ℕ
  pub not_empty_event : Event
  pub not_full_event : Event
  pub owner_label : List ℕ

-- What happens while the thread waits: the ends of its sleeps, and what the other threads do to
-- the queue up to the moment when the wait returns.
pub record Meanwhile : Type 0 where
  pub wakeups : Wakeups
  pub others : MessageQueue → MessageQueue

-- `(queue->tail + 1) % queue->max_size`
abbrev pub next_tail : MessageQueue → ℕ
next_tail q = (q.tail + 1) % q.max_size

abbrev pub is_full : MessageQueue → Bool
is_full q = next_tail q == q.head

abbrev pub is_empty : MessageQueue → Bool
is_empty q = q.head == q.tail

-- `memcpy` into the slot at the tail, the new tail, and the event.
unfoldable pub store : MessageQueue → Message → Bool × MessageQueue
unfolding event_set
store q m = (
  true,
  record q {
    entries = set q.entries q.tail m;
    tail = next_tail q;
    not_empty_event = event_set q.not_empty_event;
  },
)

-- After the wait on a full queue. `!platform_event_wait(…)` holds for the code 0, success.
unfoldable pub push_woken : Message → PlatformErrorCode → MessageQueue → Bool × MessageQueue
unfolding store
push_woken m code q =
    if not (truthy code) then (false, q) else if is_full q then (false, q) else store q m

-- `message_queue_push` at a queue and a message that are not null. `none` is a thread that waits
-- for ever.
unfoldable pub push : MessageQueue → Message → ℕ → Meanwhile → Option (Bool × MessageQueue)
unfolding push_woken store
push q m timeout_ms env =
    if is_full q
    then elim (event_wait q.not_full_event timeout_ms env.wakeups) [
      | none ↦ none
      | some (code, event) ↦
          some (push_woken m code (env.others (record q { not_full_event = event })))
    ]
    else some (store q m)

-- `memcpy` from the slot at the head (`none` is a read out of range), the new head, and the event.
unfoldable pub fetch : MessageQueue → Option Message × MessageQueue
unfolding event_set
fetch q = (
  get_elem? q.entries q.head,
  record q { head = (q.head + 1) % q.max_size; not_full_event = event_set q.not_full_event },
)

unfoldable pub pop_woken : PlatformErrorCode → MessageQueue → Option Message × MessageQueue
unfolding fetch
pop_woken code q =
    if not (truthy code) then (none, q) else if is_empty q then (none, q) else fetch q

-- `message_queue_pop`; the inner `none` is the result `false`.
unfoldable pub pop : MessageQueue → ℕ → Meanwhile → Option (Option Message × MessageQueue)
unfolding pop_woken fetch
pop q timeout_ms env =
    if is_empty q
    then elim (event_wait q.not_empty_event timeout_ms env.wakeups) [
      | none ↦ none
      | some (code, event) ↦
          some (pop_woken code (env.others (record q { not_empty_event = event })))
    ]
    else some (fetch q)
