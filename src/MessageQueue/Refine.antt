-- ===== src/MessageQueue/Refine.antt =====
-- A queue of messages behaves as the bounded queue of its contents, of one message less than its
-- slots.
use ether_recorder_suite.Prelude.{
  ℕ, suc, ◌-◌, ◌≡◌, ◌≢◌, ap, ◌∙◌, Bool, true, false, Option, none, some, [], ◌∷◌, ◌++◌, arith,
  length, length-set, get_or, ==-iff, Bool-cases, get_elem?-eq-get_or, inl, inr, Option-cases,
}
use ether_recorder_suite.Platform.Event.{Event, event_wait}
use ether_recorder_suite.Fifo
use ether_recorder_suite.RingArray
use ether_recorder_suite.MessageQueue.{
  Message, MessageQueue, Meanwhile, next_tail, is_full, is_empty, store, fetch, push, pop,
  push_woken, pop_woken,
}
use ether_recorder_suite.MessageQueue.Ring.{IsValid, no_message, used, contents}

-- A queue and its event for writers differ in nothing that the contents show.
pub length-contents : (q : MessageQueue) → length (contents q) ≡ used q
length-contents q = RingArray.length-span no_message q.max_size q.entries q.head (used q)

module _ {q : MessageQueue} (v : IsValid q) where
  pub store-IsValid : (m : Message) → IsValid (store q m).1
  unfolding store
  store-IsValid m = ground (arith, length-set q.entries q.tail m)

  pub fetch-IsValid : IsValid (fetch q).1
  unfolding fetch
  fetch-IsValid = ground arith

  pub contents-store :
      (m : Message) → next_tail q ≢ q.head → contents (store q m).1 ≡ contents q ++ (m ∷ [])
  unfolding store
  contents-store m ne =
      ap (RingArray.span no_message q.max_size (store q m).1.entries q.head) grown
      ∙ RingArray.span-set_next no_message q.max_size q.entries m q.head (used q) q.tail v.head_in
          (RingArray.used-lt v.head_in v.tail_in) (omega (arith, v.storage)) v.tail_in
          (RingArray.tail-used v.head_in v.tail_in)
    where
      grown : used (store q m).1 ≡ suc (used q)
      grown = omega (arith, RingArray.used-next_tail v.head_in v.tail_in ne)

  pub contents-fetch :
      q.head ≢ q.tail
      → (m : Message) × ((fetch q).0 ≡ some m) × (contents q ≡ m ∷ contents (fetch q).1)
  unfolding fetch
  contents-fetch ne = (
    get_or q.entries q.head no_message,
    get_elem?-eq-get_or q.entries q.head no_message (omega (arith, v.storage, v.head_in)),
    ap (RingArray.span no_message q.max_size q.entries q.head)
          (RingArray.used-next_head v.head_in v.tail_in ne)
        ∙ RingArray.span-head no_message q.max_size q.entries q.head (used (fetch q).1) v.head_in,
  )

-- With nobody else at the queue a wait changes the event alone.
push_full :
    (q : MessageQueue) (m : Message) (timeout_ms : ℕ) (env : Meanwhile) (r : Bool × MessageQueue)
    → ((p : MessageQueue) → env.others p ≡ p)
    → is_full q ≡ true
    → push q m timeout_ms env ≡ some r
    → (e : Event) × (r ≡ (false, record q { not_full_event = e }))
unfolding push push_woken
push_full q m t env r alone full h =
    elim (Option-cases (event_wait q.not_full_event t env.wakeups)) [
      | inl e ↦ absurd (ground (arith, e))
      | inr ((code, event), e) ↦
          (event, ground (arith, e, alone (record q { not_full_event = event })))
    ]

pop_empty :
    (q : MessageQueue) (timeout_ms : ℕ) (env : Meanwhile) (r : Option Message × MessageQueue)
    → ((p : MessageQueue) → env.others p ≡ p)
    → is_empty q ≡ true
    → pop q timeout_ms env ≡ some r
    → (e : Event) × (r ≡ (none, record q { not_empty_event = e }))
unfolding pop pop_woken
pop_empty q t env r alone empty h =
    elim (Option-cases (event_wait q.not_empty_event t env.wakeups)) [
      | inl e ↦ absurd (ground (arith, e))
      | inr ((code, event), e) ↦
          (event, ground (arith, e, alone (record q { not_empty_event = event })))
    ]

-- A valid queue with room takes the message at once and says so; one without room, with no other
-- thread at the queue, refuses it and keeps its contents, however the wait ends.
pub push_refines :
    (q : MessageQueue) (m : Message) (timeout_ms : ℕ) (env : Meanwhile) (r : Bool × MessageQueue)
    → IsValid q
    → ((p : MessageQueue) → env.others p ≡ p)
    → push q m timeout_ms env ≡ some r
    → ((r.0, contents r.1) ≡ Fifo.push (q.max_size - 1) (contents q) m) × IsValid r.1
unfolding push Fifo.push
push_refines q m t env r v alone h = elim (Bool-cases (is_full q)) [
  | inl full ↦
      let (e, p) = push_full q m t env r alone full h in
      (
        ground (
          arith,
          p,
          length-contents q,
          RingArray.used_full v.head_in v.tail_in ((==-iff (next_tail q) q.head).0 full),
        ),
        ground (arith, p),
      )
  | inr room ↦
      let ne : next_tail q ≢ q.head = ground arith in
      let p : r ≡ store q m = ground arith in
      (
        ground (
          arith,
          p,
          length-contents q,
          contents-store v m ne,
          RingArray.used_not_full v.head_in v.tail_in ne,
        ),
        ground (arith, p, store-IsValid v m),
      )
]

-- A valid queue that holds messages gives the oldest at once; an empty one, with no other thread
-- at the queue, gives none and stays empty, however the wait ends.
pub pop_refines :
    (q : MessageQueue) (timeout_ms : ℕ) (env : Meanwhile) (r : Option Message × MessageQueue)
    → IsValid q
    → ((p : MessageQueue) → env.others p ≡ p)
    → pop q timeout_ms env ≡ some r
    → ((r.0, contents r.1) ≡ Fifo.pop (contents q)) × IsValid r.1
unfolding pop Fifo.pop
pop_refines q t env r v alone h = elim (Bool-cases (is_empty q)) [
  | inl empty ↦
      let (e, p) = pop_empty q t env r alone empty h in
      let none_used : used q ≡ 0 = ground arith in
      (
        ground (arith, p, ap (RingArray.span no_message q.max_size q.entries q.head) none_used),
        ground (arith, p),
      )
  | inr some_used ↦
      let ne : q.head ≢ q.tail = ground arith in
      let p : r ≡ fetch q = ground arith in
      let (m, first, rest) = contents-fetch v ne in
      (ground (arith, p, first, rest), ground (arith, p, fetch-IsValid v))
]

pub max_size-push :
    (q : MessageQueue) (m : Message) (timeout_ms : ℕ) (env : Meanwhile) (r : Bool × MessageQueue)
    → ((p : MessageQueue) → env.others p ≡ p)
    → push q m timeout_ms env ≡ some r
    → r.1.max_size ≡ q.max_size
unfolding push store
max_size-push q m t env r alone h = elim (Bool-cases (is_full q)) [
  | inl full ↦ let (e, p) = push_full q m t env r alone full h in ground (arith, p)
  | inr room ↦ ground arith
]

pub max_size-pop :
    (q : MessageQueue) (timeout_ms : ℕ) (env : Meanwhile) (r : Option Message × MessageQueue)
    → ((p : MessageQueue) → env.others p ≡ p)
    → pop q timeout_ms env ≡ some r
    → r.1.max_size ≡ q.max_size
unfolding pop fetch
max_size-pop q t env r alone h = elim (Bool-cases (is_empty q)) [
  | inl empty ↦ let (e, p) = pop_empty q t env r alone empty h in ground (arith, p)
  | inr filled ↦ ground arith
]

-- A push or a pop that returns keeps the queue valid, if the other threads keep it so.
pub push-IsValid :
    (q : MessageQueue) (m : Message) (timeout_ms : ℕ) (env : Meanwhile) (r : Bool × MessageQueue)
    → IsValid q
    → ((p : MessageQueue) → IsValid p → IsValid (env.others p))
    → push q m timeout_ms env ≡ some r
    → IsValid r.1
unfolding push push_woken
push-IsValid q m t env r v keep h =
    elim (Option-cases (event_wait q.not_full_event t env.wakeups)) [
      | inl e ↦ ground (arith, e, store-IsValid v m)
      | inr ((code, event), e) ↦
          let v' : IsValid (record q { not_full_event = event }) = ground arith in
          let w = keep (record q { not_full_event = event }) v' in
          ground (arith, e, w, store-IsValid v m, store-IsValid w m)
    ]

pub pop-IsValid :
    (q : MessageQueue) (timeout_ms : ℕ) (env : Meanwhile) (r : Option Message × MessageQueue)
    → IsValid q
    → ((p : MessageQueue) → IsValid p → IsValid (env.others p))
    → pop q timeout_ms env ≡ some r
    → IsValid r.1
unfolding pop pop_woken
pop-IsValid q t env r v keep h = elim (Option-cases (event_wait q.not_empty_event t env.wakeups)) [
  | inl e ↦ ground (arith, e, fetch-IsValid v)
  | inr ((code, event), e) ↦
      let v' : IsValid (record q { not_empty_event = event }) = ground arith in
      let w = keep (record q { not_empty_event = event }) v' in
      ground (arith, e, w, fetch-IsValid v, fetch-IsValid w)
]
