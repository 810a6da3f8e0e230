-- ===== src/Comm/Relay.antt =====
-- `process_relay_data`: received bytes as messages for the queue of another connection's thread.
use ether_recorder_suite.Prelude.{
  ℕ, zero, suc, ◌+◌, Bool, true, false, not, ◌||◌, Option, none, some, List, [], ◌∷◌, if◌then◌else◌,
  ltb, leb, ◌==◌, length, take, drop,
}
use ether_recorder_suite.MessageQueue
use ether_recorder_suite.MessageQueue.{
  MessageQueue, Message, Meanwhile, relay, message_content_size,
}
use ether_recorder_suite.Registry.Core.{Registry, Env}
use ether_recorder_suite.Registry.Queues.{get_queue_by_label, with_queue}
use ether_recorder_suite.Comm.{CommContext, default_thread_wait_timeout_ms}

-- The message of the next chunk.
unfoldable pub relay_message : List ℕ → Message
relay_message rest =
    let size =
      if ltb message_content_size (length rest) then message_content_size else length rest in
    record { type = relay; content_size = size; content = take size rest }

-- The loop, with what other threads do in each push. It makes three rounds at most; `none` is a
-- push that waits for ever.
unfoldable pub relay_loop :
    ℕ → ℕ → List ℕ → (ℕ → Meanwhile) → MessageQueue → Option (Bool × MessageQueue)
relay_loop zero chunk_count rest meanwhile q = none
relay_loop (suc rounds) chunk_count [] meanwhile q = some (true, q)
relay_loop (suc rounds) chunk_count (b ∷ bs) meanwhile q = elim (leb 1 chunk_count) [
  | true ↦ some (false, q)
  | false ↦
      elim (MessageQueue.push q (relay_message (b ∷ bs)) default_thread_wait_timeout_ms
        (meanwhile chunk_count)) [
          | none ↦ none
          | some (pushed, q') ↦ elim pushed [
            | false ↦ some (false, q')
            | true ↦
                relay_loop rounds (chunk_count + 1)
                  (drop ((relay_message (b ∷ bs)).content_size) (b ∷ bs)) meanwhile q'
          ]
        ]
]

unfoldable pub process_relay_data :
    CommContext → Env → (ℕ → Meanwhile) → List ℕ → Registry → Option (Bool × Registry)
process_relay_data context env meanwhile bytes r =
    if not context.is_relay_enabled || length context.foreign_queue_label == 0
    then some (true, r)
    else (let (queue, r') = get_queue_by_label env (some context.foreign_queue_label) r in
        elim queue [
          | none ↦ some (true, r')
          | some q ↦ elim (relay_loop 3 0 bytes meanwhile q) [
            | none ↦ none
            | some (done, q') ↦ some (done, with_queue context.foreign_queue_label q' r')
          ]
        ])
