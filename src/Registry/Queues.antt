-- ===== src/Registry/Queues.antt =====
-- The queues of messages that the registry owns: `init_queue`, `push_message`, `pop_message` and
-- `get_queue_by_label`. A thread uses a queue after it has released the lock of the registry; here
-- no other thread removes the entry in between.
use ether_recorder_suite.Prelude.{
  ℕ, Bool, true, false, Option, none, some, ◌==◌, if◌then◌else◌, replicate,
}
use ether_recorder_suite.Platform.Event.{Event, event_create}
use ether_recorder_suite.MessageQueue
use ether_recorder_suite.MessageQueue.{MessageQueue, Message, Meanwhile}
use ether_recorder_suite.MessageQueue.Ring.{no_message}
use ether_recorder_suite.Registry.State.{
  ThreadRegistryError, success, creation_failed, not_found, queue_full, queue_empty, unauthorized,
}
use ether_recorder_suite.Registry.Core.{
  Label, Entry, Registry, Env, validate_thread_label, locked, unlocked, find_thread, modify,
}
use ether_recorder_suite.Registry.Ops.{with_label}

-- `max_size` of `init_queue`
abbrev pub default_queue_size : ℕ
default_queue_size = 1024

-- `calloc` of the entries and the fields that `init_queue` sets.
unfoldable pub new_queue : Label → Event → Event → MessageQueue
new_queue owner not_empty not_full = record {
  entries = replicate default_queue_size no_message;
  head = 0;
  tail = 0;
  max_size = default_queue_size;
  not_empty_event = not_empty;
  not_full_event = not_full;
  owner_label = owner;
}

abbrev pub set_queue : Option MessageQueue → Entry → Entry
set_queue q e = record e { queue = q }

-- The two events of a new queue, if both can be created.
unfoldable pub queue_events : Env → Option (Event × Event)
queue_events env = elim ((event_create env.event false false).1) [
  | none ↦ none
  | some not_empty ↦ elim ((event_create env.second_event false true).1) [
    | none ↦ none
    | some not_full ↦ some (not_empty, not_full)
  ]
]

-- The part of `init_queue` that holds the lock. On a failure the queue is null again.
unfoldable pub init_queue_locked : Env → Label → Registry → ThreadRegistryError × Registry
unfolding new_queue queue_events
init_queue_locked env l r = elim (find_thread l r.entries) [
  | none ↦ (not_found, unlocked r)
  | some e ↦ elim e.queue [
    | some q ↦ (success, unlocked r)
    | none ↦
        if env.calloc_ok
        then if env.calloc_entries_ok
          then elim (queue_events env) [
            | none ↦ (
              creation_failed,
              unlocked (record r { entries = modify l (set_queue none) r.entries }),
            )
            | some (not_empty, not_full) ↦ (
              success,
              unlocked (record r {
                entries = modify l (set_queue (some (new_queue l not_empty not_full))) r.entries;
              }),
            )
          ]
          else (
            creation_failed,
            unlocked (record r { entries = modify l (set_queue none) r.entries }),
          )
        else (creation_failed, unlocked r)
  ]
]

unfoldable pub init_queue : Env → Option Label → Registry → ThreadRegistryError × Registry
unfolding with_label init_queue_locked
init_queue env label r =
    with_label (λ e. (e, r)) env label r (λ l. init_queue_locked env l (locked r))

-- The queue of a label: what the entry's pointer leads to.
unfoldable pub queue_of : Label → Registry → Option MessageQueue
queue_of l r = elim (find_thread l r.entries) [ none ↦ none | some e ↦ e.queue ]

abbrev pub with_queue : Label → MessageQueue → Registry → Registry
with_queue l q r = record r { entries = modify l (set_queue (some q)) r.entries }

-- `push_message` of a message that is not null. `none` is a thread that waits for ever.
unfoldable pub push_message :
    Env
    → Option Label
    → Message
    → ℕ
    → Meanwhile
    → Registry
    → Option (ThreadRegistryError × Registry)
unfolding with_label queue_of
push_message env label message timeout_ms meanwhile r =
    with_label (λ e. some (e, r)) env label r
      λ l. elim (queue_of l r) [
        | none ↦ some (not_found, unlocked (locked r))
        | some q ↦ elim (MessageQueue.push q message timeout_ms meanwhile) [
          | none ↦ none
          | some (done, q') ↦
              some (if done then success else queue_full, with_queue l q' (unlocked (locked r)))
        ]
      ]

unfoldable pub is_owner : ℕ → Label → Registry → Bool
is_owner current l r = elim (find_thread l r.entries) [
  | none ↦ false
  | some e ↦ e.thread.thread_id == current
]

-- `pop_message` into a buffer that is not null; the message is what it writes there.
unfoldable pub pop_message :
    Env
    → Option Label
    → ℕ
    → Meanwhile
    → Registry
    → Option (ThreadRegistryError × Option Message × Registry)
unfolding with_label queue_of is_owner
pop_message env label timeout_ms meanwhile r =
    with_label (λ e. some (e, none, r)) env label r
      λ l. elim (queue_of l r) [
        | none ↦ some (not_found, none, unlocked (locked r))
        | some q ↦
            if is_owner env.current l r
            then elim (MessageQueue.pop q timeout_ms meanwhile) [
              | none ↦ none
              | some (none, q') ↦ some (queue_empty, none, with_queue l q' (unlocked (locked r)))
              | some (some m, q') ↦ some (success, some m, with_queue l q' (unlocked (locked r)))
            ]
            else some (unauthorized, none, unlocked (locked r))
      ]

unfoldable pub get_queue_by_label : Env → Option Label → Registry → Option MessageQueue × Registry
unfolding validate_thread_label queue_of
get_queue_by_label env none r = (none, r)
get_queue_by_label env (some l) r =
    if validate_thread_label (some l)
    then if env.lock_ok then (queue_of l r, unlocked (locked r)) else (none, r)
    else (none, r)
