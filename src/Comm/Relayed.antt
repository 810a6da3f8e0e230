-- ===== src/Comm/Relayed.antt =====
-- What the relay puts into the queue of another connection.
use ether_recorder_suite.Prelude.{
  ℕ, zero, suc, ◌+◌, ◌≤◌, ◌≡◌, ◌≢◌, refl, ap, ◌∙◌, true, false, some, List, [], ◌∷◌, ◌++◌,
  if◌then◌else◌, ltb, leb, length, take, drop, arith, Bool-cases, inl, inr,
}
use ether_recorder_suite.Text.{is_nil}
use ether_recorder_suite.MessageQueue
use ether_recorder_suite.MessageQueue.{MessageQueue, Message, Meanwhile, relay, next_tail, store}
use ether_recorder_suite.MessageQueue.Ring.{IsValid, contents}
use ether_recorder_suite.MessageQueue.Refine.{store-IsValid, contents-store}
use ether_recorder_suite.Registry.Core.{
  Label, Registry, Env, validate_thread_label, locked, unlocked,
}
use ether_recorder_suite.Registry.Posting.{queue_of-with_queue}
use ether_recorder_suite.Registry.Queues.{get_queue_by_label, with_queue, queue_of}
use ether_recorder_suite.Comm.{CommContext}
use ether_recorder_suite.Comm.Relay.{relay_message, relay_loop, process_relay_data}

is_nil-drop : (n : ℕ) (xs : List ℕ) → is_nil (drop n xs) ≡ leb (length xs) n
is_nil-drop zero [] = ground arith
is_nil-drop zero (x ∷ xs) = ground arith
is_nil-drop (suc n) [] = ground arith
is_nil-drop (suc n) (x ∷ xs) = ground (arith, is_nil-drop n xs)

take_all : (n : ℕ) (xs : List ℕ) → length xs ≤ n → take (length xs) xs ≡ take n xs
take_all zero [] h = refl
take_all zero (x ∷ xs) h = absurd (omega arith)
take_all (suc n) [] h = refl
take_all (suc n) (x ∷ xs) h = ap (λ l. x ∷ l) (take_all n xs (omega arith))

take_least :
    (n : ℕ) (xs : List ℕ) → take (if ltb n (length xs) then n else length xs) xs ≡ take n xs
take_least n xs = elim (Bool-cases (ltb n (length xs))) [
  | inl e ↦ ground (arith, e)
  | inr e ↦ ground (arith, e, take_all n xs (ground arith))
]

-- The first bytes of the data, as many as a message holds.
abbrev pub first_chunk : List ℕ → Message
first_chunk bytes = record {
  type = relay;
  content_size = if ltb 1472 (length bytes) then 1472 else length bytes;
  content = take 1472 bytes;
}

relay_message_lem : (bytes : List ℕ) → relay_message bytes ≡ first_chunk bytes
unfolding relay_message
relay_message_lem bytes =
    ap
      (λ c. record {
        type = relay;
        content_size = if ltb 1472 (length bytes) then 1472 else length bytes;
        content = c;
      })
      (take_least 1472 bytes)

-- After the first chunk the loop ends.
relay_loop_second :
    (rounds : ℕ) (rest : List ℕ) (mw : ℕ → Meanwhile) (q : MessageQueue)
    → relay_loop (suc rounds) (0 + 1) rest mw q ≡ some (is_nil rest, q)
unfolding relay_loop
relay_loop_second rounds [] mw q = refl
relay_loop_second rounds (b ∷ bs) mw q = refl

relay_loop_first :
    (bytes : List ℕ) (mw : ℕ → Meanwhile) (q : MessageQueue)
    → is_nil bytes ≡ false
    → next_tail q ≢ q.head
    → relay_loop 3 0 bytes mw q
      ≡ some
          (leb (length bytes) (relay_message bytes).content_size, (store q (relay_message bytes)).1)
unfolding relay_loop MessageQueue.push store
relay_loop_first [] mw q h ne = absurd (ground arith)
relay_loop_first (b ∷ bs) mw q h ne = ground (
  arith,
  relay_loop_second 1 (drop (relay_message (b ∷ bs)).content_size (b ∷ bs)) mw
      (store q (relay_message (b ∷ bs))).1,
  is_nil-drop (relay_message (b ∷ bs)).content_size (b ∷ bs),
)

-- What a relay of these bytes has done to the queue of a label.
pub record Relayed (l : Label) (bytes : List ℕ) (q : MessageQueue) (r : Registry) : Type 0 where
  pub queue : MessageQueue
  pub found : queue_of l r ≡ some queue
  pub valid : IsValid queue
  pub grown : contents queue ≡ contents q ++ (first_chunk bytes ∷ [])

-- Bytes that are to be relayed to a thread whose queue has room: the first 1472 of them become one
-- message, the last in the queue; the rest is lost, and the result says whether there was no rest.
pub process_relay_data_lem :
    (context : CommContext) (env : Env) (mw : ℕ → Meanwhile) (bytes : List ℕ) (r : Registry)
    (q : MessageQueue)
    → context.is_relay_enabled ≡ true
    → length context.foreign_queue_label ≢ 0
    → validate_thread_label (some context.foreign_queue_label) ≡ true
    → env.lock_ok ≡ true
    → queue_of context.foreign_queue_label r ≡ some q
    → IsValid q
    → next_tail q ≢ q.head
    → length bytes ≢ 0
    → (s : Registry) × (process_relay_data context env mw bytes r
        ≡ some (leb (length bytes) 1472, s))
      × Relayed context.foreign_queue_label bytes q s
unfolding process_relay_data get_queue_by_label
process_relay_data_lem context env mw bytes r q on named label lock found v room some_bytes =
    let l = context.foreign_queue_label in
    let m = relay_message bytes in
    (
      with_queue l (store q m).1 (unlocked (locked r)),
      ground (
        arith,
        on,
        named,
        label,
        lock,
        found,
        relay_loop_first bytes mw q (filled bytes some_bytes) room,
        fits,
      ),
      record {
        queue = (store q m).1;
        found = queue_of-with_queue l q (store q m).1 (unlocked (locked r)) found;
        valid = store-IsValid v m;
        grown =
            contents-store v m room ∙ ap (λ x. contents q ++ (x ∷ [])) (relay_message_lem bytes);
      },
    )
  where
    filled : (xs : List ℕ) → length xs ≢ 0 → is_nil xs ≡ false
    filled [] h = absurd (h refl)
    filled (x ∷ xs) h = refl

    fits : leb (length bytes) (relay_message bytes).content_size ≡ leb (length bytes) 1472
    fits = ap (λ m. leb (length bytes) m.content_size) (relay_message_lem bytes) ∙ ground arith
