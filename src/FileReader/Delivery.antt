-- ===== src/FileReader/Delivery.antt =====
-- A file that arrives in the queue of the other thread.
use ether_recorder_suite.Prelude.{
  ℕ, zero, suc, ◌+◌, ◌≤◌, ◌<◌, ◌≡◌, ◌≢◌, refl, sym, ap, ◌∙◌, true, false, Option, none, some, List,
  [], ◌∷◌, ◌++◌, ltb, length, take, drop, min, arith, append-nil, append_assoc, take-append-drop,
  length-append,
}
use ether_recorder_suite.Text.{is_nil}
use ether_recorder_suite.Platform.File.{FileSlot, at_most, is_open, platform_file_read}
use ether_recorder_suite.MessageQueue.{MessageQueue, Message, store, next_tail}
use ether_recorder_suite.MessageQueue.Ring.{IsValid, contents, used}
use ether_recorder_suite.MessageQueue.Refine.{store-IsValid, contents-store, length-contents}
use ether_recorder_suite.RingArray
use ether_recorder_suite.Registry.Core.{Label, Registry, validate_thread_label, locked, unlocked}
use ether_recorder_suite.Registry.Queues.{queue_of, with_queue}
use ether_recorder_suite.AppThread.{thread_success}
use ether_recorder_suite.Registry.Posting.{queue_of-with_queue, push_message_room}
use ether_recorder_suite.Comm.Sent.{payload}
use ether_recorder_suite.Comm.Stream.{stream}
use ether_recorder_suite.FileReader.Chunks.{
  Reader, ReaderTurn, finished, chunk, send_chunk, read_chunk, chunk_loop,
}

-- Turns in which a file is read to its end, with so many chunks before the end.
pub data Reads (size : ℕ) : ℕ → List ℕ → List ReaderTurn → Type 0 where
  at_end :
      (turn : ReaderTurn) (turns : List ReaderTurn) (n : ℕ)
      → turn.shutdown ≡ false
      → turn.read ≡ at_most n
      → Reads size 0 [] (turn ∷ turns)
  one_more :
      (turn : ReaderTurn) {k : ℕ} {unread : List ℕ} {turns : List ReaderTurn} (n : ℕ)
      → turn.shutdown ≡ false
      → turn.read ≡ at_most n
      → turn.env.lock_ok ≡ true
      → 0 < n
      → length unread ≢ 0
      → Reads size k (drop (min n size) unread) turns
      → Reads size (suc k) unread (turn ∷ turns)

-- What a run has read, and the queue of the label after it.
pub record Delivered (l : Label) (q : MessageQueue) (w w' : Reader) : Type 0 where
  pub chunks : List Message
  pub pushed : w'.pushed ≡ w.pushed ++ chunks
  pub queue : MessageQueue
  pub found : queue_of l w'.registry ≡ some queue
  pub valid : IsValid queue
  pub grown : contents queue ≡ contents q ++ chunks
  pub bytes : stream chunks ≡ w.unread
  pub unread : w'.unread ≡ []

take-nil : (n : ℕ) → ◌≡◌ {A = List ℕ} (take n []) []
take-nil zero = refl
take-nil (suc n) = refl

drop-nil : (n : ℕ) → ◌≡◌ {A = List ℕ} (drop n []) []
drop-nil zero = refl
drop-nil (suc n) = refl

pub length-take_le : (n : ℕ) (xs : List ℕ) → length (take n xs) ≤ n
length-take_le zero xs = omega arith
length-take_le (suc n) [] = omega arith
length-take_le (suc n) (x ∷ xs) = omega (arith, length-take_le n xs)

is_nil-take : (n : ℕ) (xs : List ℕ) → 0 < n → length xs ≢ 0 → is_nil (take n xs) ≡ false
is_nil-take zero xs h ne = absurd (omega arith)
is_nil-take (suc n) [] h ne = absurd (ne refl)
is_nil-take (suc n) (x ∷ xs) h ne = refl

pub payload-chunk : (bytes : List ℕ) → payload (chunk bytes) ≡ bytes
payload-chunk [] = refl
payload-chunk (b ∷ bs) = ap (λ l. b ∷ l) (payload-chunk bs)

send_chunk_room :
    (l : Label) (t : ℕ) (turn : ReaderTurn) (bytes : List ℕ) (w : Reader) (q : MessageQueue)
    → validate_thread_label (some l) ≡ true
    → turn.env.lock_ok ≡ true
    → w.registry.initialized ≡ true
    → queue_of l w.registry ≡ some q
    → next_tail q ≢ q.head
    → is_nil bytes ≡ false
    → ltb 1472 (length bytes) ≡ false
    → send_chunk l t turn bytes w
      ≡ some (
        none,
        record {
          unread = w.unread;
          registry = with_queue l (store q (chunk bytes)).1 (unlocked (locked w.registry));
          pushed = w.pushed ++ (chunk bytes ∷ []);
        },
      )
unfolding send_chunk
send_chunk_room l t turn bytes w q label lock i found room some_bytes fits = ground (
  arith,
  some_bytes,
  fits,
  push_message_room turn.env l (chunk bytes) t turn.meanwhile w.registry q label lock i found room,
)

-- A read within the limit, with a queue that has room.
read_chunk_room :
    (file : Option ℕ) (pool : List FileSlot) (l : Label) (size t : ℕ) (turn : ReaderTurn) (n : ℕ)
    (w : Reader) (q : MessageQueue)
    → is_open file pool ≡ true
    → turn.read ≡ at_most n
    → 0 < n
    → 0 < size
    → size ≤ 1472
    → length w.unread ≢ 0
    → validate_thread_label (some l) ≡ true
    → turn.env.lock_ok ≡ true
    → w.registry.initialized ≡ true
    → queue_of l w.registry ≡ some q
    → next_tail q ≢ q.head
    → read_chunk file pool l size t turn w
      ≡ some (
        none,
        record {
          unread = drop (min n size) w.unread;
          registry =
              with_queue l
                (store q (chunk (take (min n size) w.unread))).1
                (unlocked (locked w.registry));
          pushed = w.pushed ++ (chunk (take (min n size) w.unread) ∷ []);
        },
      )
unfolding read_chunk platform_file_read
read_chunk_room file pool l size t turn n w q live reads pos spos fits more label lock i found
      room =
    ground (
      arith,
      live,
      reads,
      buffered,
      send_chunk_room l t turn (take (min n size) w.unread)
          (record w { unread = drop (min n size) w.unread }) q label lock i found room
          (is_nil-take (min n size) w.unread (omega (arith, pos, spos)) more) buffered,
    )
  where
    within : length (take (min n size) w.unread) ≤ 1472
    within = omega (arith, length-take_le (min n size) w.unread, fits)

    buffered : ltb 1472 (length (take (min n size) w.unread)) ≡ false
    buffered = ground (arith, within)

used-store :
    (q : MessageQueue) (m : Message)
    → IsValid q
    → next_tail q ≢ q.head
    → used (store q m).1 ≡ used q + 1
used-store q m v room =
    sym (length-contents (store q m).1)
    ∙ ap length (contents-store v m room)
    ∙ length-append (contents q) (m ∷ [])
    ∙ ap (λ n. n + 1) (length-contents q)

not_full :
    (q : MessageQueue) (k : ℕ) → IsValid q → used q + suc k < q.max_size → next_tail q ≢ q.head
not_full q k v h e = absurd (omega (arith, RingArray.used_full v.head_in v.tail_in e, h))

max_size-store : (q : MessageQueue) (m : Message) → (store q m).1.max_size ≡ q.max_size
unfolding store
max_size-store q m = refl

pub stream-chunk :
    (bytes : List ℕ) (ms : List Message) → stream (chunk bytes ∷ ms) ≡ bytes ++ stream ms
unfolding stream
stream-chunk bytes ms = ap (λ x. x ++ stream ms) (payload-chunk bytes)

-- The end of the file.
ends :
    (file : Option ℕ) (pool : List FileSlot) (l : Label) (size t : ℕ) (turn : ReaderTurn) (n : ℕ)
    (r : Registry) (pushed : List Message)
    → is_open file pool ≡ true
    → turn.read ≡ at_most n
    → read_chunk file pool l size t turn (record { unread = []; registry = r; pushed = pushed })
      ≡ some (some (finished thread_success), record { unread = []; registry = r; pushed = pushed })
unfolding read_chunk platform_file_read send_chunk
ends file pool l size t turn n r pushed live reads =
    ground (arith, live, reads, take-nil (min n size), drop-nil (min n size))

-- The loop over the turns of such a reading.
pub chunk_loop-Delivered :
    (file : Option ℕ) (pool : List FileSlot) (l : Label) (size t k : ℕ) (turns : List ReaderTurn)
    (unread : List ℕ) (r : Registry) (pushed : List Message) (q : MessageQueue)
    → is_open file pool ≡ true
    → 0 < size
    → size ≤ 1472
    → validate_thread_label (some l) ≡ true
    → r.initialized ≡ true
    → queue_of l r ≡ some q
    → IsValid q
    → used q + k < q.max_size
    → Reads size k unread turns
    → (w' : Reader) × (chunk_loop file pool l size t turns
          (record { unread = unread; registry = r; pushed = pushed })
        ≡ some (finished thread_success, w'))
      × Delivered l q (record { unread = unread; registry = r; pushed = pushed }) w'
unfolding chunk_loop queue_of
chunk_loop-Delivered file pool l size t _ _ _ r pushed q live spos fits label i found v room
      (at_end turn turns n up reads) =
    (
      record { unread = []; registry = r; pushed = pushed },
      ground (arith, up, ends file pool l size t turn n r pushed live reads),
      record {
        chunks = [];
        pushed = sym (append-nil pushed);
        queue = q;
        found = found;
        valid = v;
        grown = sym (append-nil (contents q));
        bytes = unfold stream in refl;
        unread = refl;
      },
    )
chunk_loop-Delivered file pool l size t _ _ unread r pushed q live spos fits label i found v room
      (one_more turn {k = k} {turns = turns} n up reads lock pos more rest) =
    let bytes = take (min n size) unread in
    let ne = not_full q k v room in
    let q' = (store q (chunk bytes)).1 in
    let (w', run, d) =
      chunk_loop-Delivered file pool l size t k turns (drop (min n size) unread)
        (with_queue l q' (unlocked (locked r))) (pushed ++ (chunk bytes ∷ [])) q' live spos fits
        label i (queue_of-with_queue l q q' (unlocked (locked r)) found)
        (store-IsValid v (chunk bytes))
        (omega (arith, used-store q (chunk bytes) v ne, max_size-store q (chunk bytes), room))
        rest in
    (
      w',
      ground (
        arith,
        up,
        run,
        read_chunk_room file pool l size t turn n
            (record { unread = unread; registry = r; pushed = pushed }) q live reads pos spos fits
            more label lock i found ne,
      ),
      record {
        chunks = chunk bytes ∷ d.chunks;
        pushed = d.pushed ∙ append_assoc pushed (chunk bytes ∷ []) d.chunks;
        queue = d.queue;
        found = d.found;
        valid = d.valid;
        grown =
            d.grown
            ∙ ap (λ c. c ++ d.chunks) (contents-store v (chunk bytes) ne)
            ∙ append_assoc (contents q) (chunk bytes ∷ []) d.chunks;
        bytes =
            stream-chunk bytes d.chunks
            ∙ ap (λ b. bytes ++ b) d.bytes
            ∙ take-append-drop (min n size) unread;
        unread = d.unread;
      },
    )
