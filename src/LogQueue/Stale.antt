-- ===== src/LogQueue/Stale.antt =====
-- What an overflow leaves behind: slots that have been purged and still read as written.
use ether_recorder_suite.Prelude.{
  ℕ, zero, suc, ◌+◌, ◌/◌, ◌≤◌, ◌<◌, ◌≡◌, ◌≢◌, refl, sym, ◌∙◌, true, arith, length, ◌==◌, Bool-cases,
  inl, inr, min, ◌^◌, get_or-set_ne,
}
use mathlib.Core.Path.{subst}
use ether_recorder_suite.RingArray
use ether_recorder_suite.LogQueue.{
  LogEntry, LogQueue, World, next, purge, publish_oldest, handle_overflow, write, try_push,
  push_fallback, push_loop, log_queue_push, backoff_delay, handle_queue_capacity_state,
  get_queue_used, max_retry_attempts, written, reserved, slot, is_empty, log, overflow,
}
use ether_recorder_suite.LogQueue.Ring.{IsValid, used}
use ether_recorder_suite.LogQueue.Push.{publish_oldest-queue, publish_oldest-Kept}
use ether_recorder_suite.LogQueue.History.{purge-Kept, purge-used}
use ether_recorder_suite.LogQueue.Slots.{IsClean, slot-head, slot-tail}

-- The least that the rounds which are left sleep, when each of them fails.
least_sleep : ℕ → ℕ → ℕ
least_sleep zero attempt = 0
least_sleep (suc left) attempt = 2 ^ min (attempt + 1) 10 + least_sleep left (attempt + 1)

all_attempts : least_sleep max_retry_attempts 0 ≡ 94206
unfolding least_sleep
all_attempts = refl

-- There is room, but the slot for the next entry reads as written.
pub record IsStale (size : ℕ) (q : LogQueue) : Type 0 where
  pub room : next size q.head ≢ q.tail
  pub stale : slot q q.head ≡ written

module _ (size : ℕ) where
  purge-keeps :
      (n : ℕ) (w : World)
      → IsValid size w.queue
      → ((purge size n w).queue.head ≡ w.queue.head)
        × ((purge size n w).queue.slot_states ≡ w.queue.slot_states)
  unfolding purge
  purge-keeps zero w v = (refl, refl)
  purge-keeps (suc n) w v = elim (Bool-cases (w.queue.head == w.queue.tail)) [
    | inl e ↦ (ground arith, ground arith)
    | inr e ↦
        let k = publish_oldest-Kept size w v (ground arith) in
        let (h, s) = purge-keeps n (publish_oldest size w) k.valid in
        let p = publish_oldest-queue size w v in (ground (arith, h, p), ground (arith, s, p))
  ]

  handle_queue_capacity_state-keeps :
      (n : ℕ) (w : World)
      → ((handle_queue_capacity_state size n w).queue ≡ w.queue)
        × (w.slept ≤ (handle_queue_capacity_state size n w).slept)
  unfolding handle_queue_capacity_state
  handle_queue_capacity_state-keeps n w = (ground arith, ground arith)

  backoff_delay-least :
      (random : ℕ → ℕ) (attempt : ℕ) (w : World)
      → ((backoff_delay random (attempt + 1) w).queue ≡ w.queue)
        × (w.slept + 2 ^ min (attempt + 1) 10 ≤ (backoff_delay random (attempt + 1) w).slept)
  unfolding backoff_delay
  backoff_delay-least random attempt w = (ground arith, ground arith)

  push_loop-waits :
      (random : ℕ → ℕ) (left attempt : ℕ) (e : LogEntry) (w : World)
      → IsStale size w.queue
      → w.slept + least_sleep left attempt ≤ (push_loop size random left attempt e w).slept
  unfolding push_loop try_push push_fallback write least_sleep
  push_loop-waits random zero attempt e w st = ground (arith, st.room)
  push_loop-waits random (suc left) attempt e w st =
      let (q, s) = backoff_delay-least random attempt w in
      ground (
        arith,
        st.room,
        st.stale,
        s,
        push_loop-waits random left (attempt + 1) e (backoff_delay random (attempt + 1) w)
            (subst (IsStale size) (sym q) st),
      )

  handle_overflow-keeps :
      (w : World)
      → IsValid size w.queue
      → ((handle_overflow size w).queue.head ≡ w.queue.head)
        × ((handle_overflow size w).queue.slot_states ≡ w.queue.slot_states)
        × IsValid size (handle_overflow size w).queue
  unfolding handle_overflow
  handle_overflow-keeps w v =
      let (h, s) = purge-keeps (size / 10) (log overflow w) v in
      let k = purge-Kept size (size / 10) (log overflow w) v in (h, s, k.valid)

  handle_overflow-used :
      (w : World)
      → IsValid size w.queue
      → 20 ≤ size
      → next size w.queue.head ≡ w.queue.tail
      → used size (handle_overflow size w).queue + 2 < size
  unfolding handle_overflow
  handle_overflow-used w v big full = ground (
    arith,
    v.room,
    big,
    purge-used size (size / 10) (log overflow w) v,
    RingArray.used_full v.tail_in v.head_in full,
  )

  -- The write after an overflow, and the slot that it makes the head.
  overflow-IsStale :
      (e : LogEntry) (w w' : World)
      → IsValid size w.queue
      → IsClean size w.queue
      → 20 ≤ size
      → next size w.queue.head ≡ w.queue.tail
      → w'.queue ≡ (handle_overflow size w).queue
      → IsStale size (write size e w').queue
        × (is_empty (slot w'.queue w'.queue.head) ≡ true)
        × (next size w'.queue.head ≢ w'.queue.tail)
  unfolding write
  overflow-IsStale e w w' v c big full p =
      let (h, s, v') = handle_overflow-keeps w v in
      let few = handle_overflow-used w v big full in
      let vw : IsValid size w'.queue = subst (IsValid size) (sym p) v' in
      let room : next size w'.queue.head ≢ w'.queue.tail =
        λ f. ground (arith, p, few, RingArray.used_full vw.tail_in vw.head_in f) in
      let room' : next size (next size w'.queue.head) ≢ w'.queue.tail = λ f. ground (
        arith,
        p,
        few,
        RingArray.used-next_tail vw.tail_in vw.head_in room,
        RingArray.used_full {t = next size w'.queue.head} vw.tail_in
            (ground (arith, RingArray.mod_once size (w'.queue.head + 1))) f,
      ) in
      let ne : w.queue.head ≢ w.queue.tail =
        λ f. ground (arith, RingArray.mod_once size (w.queue.head + 1), v.head_in, v.room) in
      let old : slot w'.queue (next size w'.queue.head) ≡ written =
        ground (arith, p, h, s, full, slot-tail size w.queue v c ne) in
      let kept =
        get_or-set_ne w'.queue.slot_states {i = w'.queue.head} {j = next size w'.queue.head} written
          reserved (λ f. ground (arith, p, h, full, ne)) in
      (
        record { room = room'; stale = kept ∙ old },
        ground (arith, p, h, s, slot-head size w.queue v c),
        room,
      )

  push_loop_free :
      (random : ℕ → ℕ) (left attempt : ℕ) (e : LogEntry) (w : World)
      → is_empty (slot w.queue w.queue.head) ≡ true
      → next size w.queue.head ≢ w.queue.tail
      → push_loop size random (suc left) attempt e w ≡ write size e w
  unfolding push_loop try_push
  push_loop_free random left attempt e w free room = ground arith

  push_loop_full :
      (random : ℕ → ℕ) (left attempt : ℕ) (e : LogEntry) (w : World)
      → next size w.queue.head ≡ w.queue.tail
      → push_loop size random (suc left) attempt e w
        ≡ push_loop size random left
            (attempt + 1)
            e
            (backoff_delay random (attempt + 1) (handle_overflow size w))
  unfolding push_loop try_push
  push_loop_full random left attempt e w full = ground arith

  push_overflow-IsStale :
      (random : ℕ → ℕ) (e : LogEntry) (w : World)
      → IsValid size w.queue
      → IsClean size w.queue
      → 20 ≤ size
      → next size w.queue.head ≡ w.queue.tail
      → IsStale size (push_loop size random 100 0 e w).queue
  push_overflow-IsStale random e w v c big full =
      let w' = backoff_delay random (0 + 1) (handle_overflow size w) in
      let (q, s) = backoff_delay-least random 0 (handle_overflow size w) in
      let (st, free, room) = overflow-IsStale e w w' v c big full q in
      subst (λ r. IsStale size r.queue)
        (sym (push_loop_full random 99 0 e w full ∙ push_loop_free random 98 1 e w' free room)) st

  -- On a valid queue of twenty slots or more with clean slots: when a push of an entry with a label
  -- has found it full, the next push of an entry with a label, if nothing has been popped in
  -- between, makes the thread sleep for 94206 ms at the least.
  pub push_after_overflow_waits :
      (random : ℕ → ℕ) (e e' : LogEntry) (w : World)
      → IsValid size w.queue
      → IsClean size w.queue
      → 20 ≤ size
      → next size w.queue.head ≡ w.queue.tail
      → length e.thread_label ≢ 0
      → length e'.thread_label ≢ 0
      → (log_queue_push size random e w).1.slept + 94206
        ≤ (log_queue_push size random e' (log_queue_push size random e w).1).1.slept
  unfolding log_queue_push
  push_after_overflow_waits random e e' w v c big full named named' =
      let w0 = handle_queue_capacity_state size (get_queue_used size w.queue) w in
      let (q, s) = handle_queue_capacity_state-keeps (get_queue_used size w.queue) w in
      let w1 = push_loop size random 100 0 e w0 in
      let st =
        push_overflow-IsStale random e w0 (subst (IsValid size) (sym q) v)
          (subst (IsClean size) (sym q) c) big (ground (arith, q, full)) in
      let (q', s') = handle_queue_capacity_state-keeps (get_queue_used size w1.queue) w1 in
      ground (
        arith,
        s',
        all_attempts,
        push_loop-waits random 100 0 e'
            (handle_queue_capacity_state size (get_queue_used size w1.queue) w1)
            (subst (IsStale size) (sym q') st),
      )
