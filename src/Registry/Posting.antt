-- ===== src/Registry/Posting.antt =====
-- Messages for a queue that has room.
use ether_recorder_suite.Prelude.{ℕ, ◌≡◌, ◌≢◌, refl, true, some, arith, bytes_eq_refl}
use ether_recorder_suite.MessageQueue
use ether_recorder_suite.MessageQueue.{MessageQueue, Message, Meanwhile, store, next_tail}
use ether_recorder_suite.Registry.State.{success}
use ether_recorder_suite.Registry.Core.{
  Label, Registry, Env, validate_thread_label, locked, unlocked,
}
use ether_recorder_suite.Registry.Entries.{find_thread-modify}
use ether_recorder_suite.Registry.Ops.{with_label}
use ether_recorder_suite.Registry.Queues.{push_message, with_queue, queue_of, set_queue}

pub queue_of-with_queue :
    (l : Label) (q q' : MessageQueue) (r : Registry)
    → queue_of l r ≡ some q
    → queue_of l (with_queue l q' r) ≡ some q'
unfolding queue_of
queue_of-with_queue l q q' r h =
    ground
      (arith, find_thread-modify l l (set_queue (some q')) r.entries (λ e. refl), bytes_eq_refl l)

pub push_message_room :
    (env : Env) (l : Label) (m : Message) (t : ℕ) (mw : Meanwhile) (r : Registry) (q : MessageQueue)
    → validate_thread_label (some l) ≡ true
    → env.lock_ok ≡ true
    → r.initialized ≡ true
    → queue_of l r ≡ some q
    → next_tail q ≢ q.head
    → push_message env (some l) m t mw r
      ≡ some (success, with_queue l (store q m).1 (unlocked (locked r)))
unfolding push_message with_label MessageQueue.push store
push_message_room env l m t mw r q label lock i found room =
    ground (arith, label, lock, i, found, room)
