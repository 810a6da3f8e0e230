-- ===== src/LogQueue/Ring.antt =====
-- The entries that the queue holds.
use ether_recorder_suite.Prelude.{ℕ, ◌≤◌, ◌<◌, ◌≡◌, List, [], ◌∷◌, ◌++◌, length}
use ether_recorder_suite.RingArray
use ether_recorder_suite.LogQueue.{LogEntry, LogQueue, Output, entry, World}

abbrev pub no_entry : LogEntry
no_entry = record { index = 0; level = 0; timestamp = 0; message = []; thread_label = [] }

-- The indices are in range. Nothing is said of the states of the slots.
pub record IsValid (size : ℕ) (q : LogQueue) : Type 0 where
  pub room : 10 ≤ size
  pub storage : length q.entries ≡ size
  pub states : length q.slot_states ≡ size
  pub head_in : q.head < size
  pub tail_in : q.tail < size

abbrev pub used : ℕ → LogQueue → ℕ
used size q = RingArray.used size q.tail q.head

-- The entries of the queue, oldest first.
abbrev pub contents : ℕ → LogQueue → List LogEntry
contents size q = RingArray.span no_entry size q.entries q.tail (used size q)

-- The entries among the outputs, in order.
unfoldable pub logged : List Output → List LogEntry
logged [] = []
logged (entry e ∷ os) = e ∷ logged os
logged (o ∷ os) = logged os

-- All that has been logged or waits in the queue, in order.
abbrev pub history : ℕ → World → List LogEntry
history size w = logged w.out ++ contents size w.queue
