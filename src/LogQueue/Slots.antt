-- ===== src/LogQueue/Slots.antt =====
-- The states of the slots: on clean ones the queue is first-in, first-out and no push waits.
use ether_recorder_suite.Prelude.{
  ℕ, zero, suc, ◌+◌, ◌%◌, ◌≤◌, ◌<◌, ◌≡◌, ◌≢◌, refl, sym, ap, ◌∙◌, true, some, none, List, [], ◌∷◌,
  arith, length, length-set, set, get_or, ◌==◌, if◌then◌else◌, Bool-cases, inl, inr,
  get_elem?-eq-get_or, ltb, get_or-set_self, get_or-set_ne, Option, replicate, length-replicate,
}
use native.Mathlib.Nat.{mod-eq_of_lt}
use ether_recorder_suite.Fifo
use ether_recorder_suite.RingArray
use ether_recorder_suite.LogQueue.{
  LogEntry, LogQueue, SlotState, World, next, write, try_push, log_queue_pop, log_queue_init,
  written, empty, reserved, slot,
}
use ether_recorder_suite.LogQueue.Ring.{IsValid, no_entry, used, contents}
use ether_recorder_suite.LogQueue.Push.{Kept, write-Kept}

-- The slots in use are written, the others empty.
abbrev pub IsClean : ℕ → LogQueue → Type 0
IsClean size q =
    (k : ℕ)
    → k < size
    → slot q ((q.tail + k) % size) ≡ (if ltb k (used size q) then written else empty)

-- A slot by its distance from another, after one of them has changed.
slot-set_at :
    (size : ℕ) (states : List SlotState) (t i k : ℕ) (s : SlotState)
    → length states ≡ size
    → t < size
    → i < size
    → k < size
    → get_or (set states ((t + i) % size) s) ((t + k) % size) reserved
      ≡ (if k == i then s else get_or states ((t + k) % size) reserved)
slot-set_at size states t i k s len ht hi hk = elim (Bool-cases (k == i)) [
  | inl e ↦ ground (
    arith,
    get_or-set_self states ((t + i) % size) s reserved
        (ground (arith, RingArray.mod_once size (t + i))),
  )
  | inr ne ↦ ground (
    arith,
    get_or-set_ne states {i = (t + i) % size} {j = (t + k) % size} s reserved
        (λ e. ne_offsets (ground arith) e),
  )
]
  where
    ne_offsets : k ≢ i → (t + i) % size ≢ (t + k) % size
    ne_offsets ne e =
        ground (arith, RingArray.mod_once size (t + i), RingArray.mod_once size (t + k))

module _ (size : ℕ) where
  pub write-IsClean :
      (e : LogEntry) (w : World)
      → IsValid size w.queue
      → IsClean size w.queue
      → next size w.queue.head ≢ w.queue.tail
      → IsClean size (write size e w).queue
  unfolding write
  write-IsClean e w v c ne k hk = ground (
    arith,
    c k hk,
    RingArray.used-next_tail v.tail_in v.head_in ne,
    ap (λ h. get_or (set w.queue.slot_states h written) ((w.queue.tail + k) % size) reserved)
        (RingArray.tail-used v.tail_in v.head_in),
    slot-set_at size w.queue.slot_states w.queue.tail (used size w.queue) k written v.states
        v.tail_in (RingArray.used-lt v.tail_in v.head_in) hk,
  )

  pub slot-head : (q : LogQueue) → IsValid size q → IsClean size q → slot q q.head ≡ empty
  slot-head q v c = ground (
    arith,
    ap (slot q) (RingArray.tail-used v.tail_in v.head_in),
    c (used size q) (RingArray.used-lt v.tail_in v.head_in),
  )

  pub slot-tail :
      (q : LogQueue) → IsValid size q → IsClean size q → q.head ≢ q.tail → slot q q.tail ≡ written
  slot-tail q v c ne = ground (
    arith,
    ap (slot q) {x = (q.tail + 0) % size} {y = q.tail}
        (ground (arith, RingArray.mod_once size (q.tail + 0))),
    c 0 (omega (arith, v.tail_in)),
  )

  popped : LogQueue → LogQueue
  popped q = record q { tail = next size q.tail; slot_states = set q.slot_states q.tail empty }

  popped-IsClean :
      (q : LogQueue) → IsValid size q → IsClean size q → q.head ≢ q.tail → IsClean size (popped q)
  unfolding popped
  popped-IsClean q v c ne k hk = elim (Bool-cases (ltb (k + 1) size)) [
    | inl more ↦ ground (arith, shift, stays (ground arith), c (k + 1) (ground arith), fewer)
    | inr last ↦
        ground (arith, shift, wraps (ground arith), fewer, RingArray.used-lt v.tail_in v.head_in)
  ]
    where
      fewer : used size q ≡ suc (used size (popped q))
      fewer = RingArray.used-next_head v.tail_in v.head_in (λ e. ne (sym e))

      shift : ((q.tail + 1) % size + k) % size ≡ (q.tail + (k + 1)) % size
      shift = ground (
        arith,
        RingArray.mod_once size (q.tail + 1),
        RingArray.mod_once size (q.tail + (k + 1)),
        RingArray.mod_once size ((q.tail + 1) % size + k),
      )

      stays :
          k + 1 < size
          → get_or (set q.slot_states q.tail empty) ((q.tail + (k + 1)) % size) reserved
            ≡ slot q ((q.tail + (k + 1)) % size)
      stays h =
          get_or-set_ne q.slot_states {i = q.tail} {j = (q.tail + (k + 1)) % size} empty reserved
            (λ e. ground (arith, e, RingArray.mod_once size (q.tail + (k + 1))))

      wraps :
          k + 1 ≡ size
          → get_or (set q.slot_states q.tail empty) ((q.tail + (k + 1)) % size) reserved ≡ empty
      wraps h = ground (
        arith,
        get_or-set_self q.slot_states q.tail empty reserved (omega (arith, v.states, v.tail_in)),
        RingArray.mod_once size (q.tail + (k + 1)),
      )

  -- On a valid queue with clean slots a pop ends; it gives what the first-in, first-out queue of
  -- the contents gives, and leaves a valid queue with clean slots.
  pub log_queue_pop_refines :
      (q : LogQueue)
      → IsValid size q
      → IsClean size q
      → (r : Option LogEntry × LogQueue) × (log_queue_pop size q ≡ some r)
        × ((r.0, contents size r.1) ≡ Fifo.pop (contents size q))
        × IsValid size r.1
        × IsClean size r.1
  unfolding log_queue_pop Fifo.pop popped
  log_queue_pop_refines q v c = elim (Bool-cases (q.tail == q.head)) [
    | inl e ↦
        let none_used : used size q ≡ 0 = ground arith in
        (
          (none, q),
          ground arith,
          ground (arith, ap (RingArray.span no_entry size q.entries q.tail) none_used),
          v,
          c,
        )
    | inr e ↦
        let ne : q.head ≢ q.tail = ground arith in
        let first =
          get_elem?-eq-get_or q.entries q.tail no_entry (omega (arith, v.storage, v.tail_in)) in
        let grown =
          ap (RingArray.span no_entry size q.entries q.tail)
            (RingArray.used-next_head v.tail_in v.head_in (λ e. ne (sym e)))
          ∙ RingArray.span-head no_entry size q.entries q.tail (used size (popped q)) v.tail_in in
        (
          (some (get_or q.entries q.tail no_entry), popped q),
          ground (arith, first, slot-tail q v c ne),
          ground (arith, grown),
          ground (arith, length-set q.slot_states q.tail empty),
          popped-IsClean q v c ne,
        )
  ]

  -- On a valid queue with clean slots that is not full the first attempt of a push writes the
  -- entry, with no wait, and the slots stay clean.
  pub try_push_at_once :
      (e : LogEntry) (w : World)
      → IsValid size w.queue
      → IsClean size w.queue
      → next size w.queue.head ≢ w.queue.tail
      → (try_push size e w ≡ (true, write size e w))
        × Kept size (e ∷ []) w (write size e w)
        × IsClean size (write size e w).queue
  unfolding try_push
  try_push_at_once e w v c ne =
      (ground (arith, slot-head w.queue v c), write-Kept size e w v ne, write-IsClean e w v c ne)

  get_or-replicate : (n k : ℕ) → k < n → get_or (replicate n empty) k reserved ≡ empty
  get_or-replicate zero k h = absurd (omega arith)
  get_or-replicate (suc n) zero h = refl
  get_or-replicate (suc n) (suc k) h = get_or-replicate n k (omega arith)

  -- `log_queue_init` makes a queue with storage for at least ten entries valid, its slots clean and
  -- its contents empty.
  pub log_queue_init-IsClean :
      (q : LogQueue)
      → length q.entries ≡ size
      → 10 ≤ size
      → IsValid size (log_queue_init size q)
        × IsClean size (log_queue_init size q)
        × (contents size (log_queue_init size q) ≡ [])
  unfolding log_queue_init
  log_queue_init-IsClean q len room = (
    ground (arith, length-replicate size empty),
    λ k hk. ground (arith, mod-eq_of_lt hk, get_or-replicate size k hk),
    refl,
  )
