-- ===== src/MessageQueue/Ring.antt =====
-- The representation invariant of the ring, and the messages that it holds.
use ether_recorder_suite.Prelude.{ℕ, ◌≤◌, ◌<◌, ◌^◌, ◌≡◌, List, [], length}
use ether_recorder_suite.RingArray
use ether_recorder_suite.MessageQueue.{Message, MessageQueue, relay}

abbrev pub no_message : Message
no_message = record { type = relay; content_size = 0; content = [] }

pub record IsValid (q : MessageQueue) : Type 0 where
  pub room : 2 ≤ q.max_size
  pub small : q.max_size < 2 ^ 31
  pub storage : length q.entries ≡ q.max_size
  pub head_in : q.head < q.max_size
  pub tail_in : q.tail < q.max_size

abbrev pub used : MessageQueue → ℕ
used q = RingArray.used q.max_size q.head q.tail

-- The messages of a queue, oldest first.
abbrev pub contents : MessageQueue → List Message
contents q = RingArray.span no_message q.max_size q.entries q.head (used q)
