-- ===== src/MessageQueue/Traces.antt =====
-- Sequences of calls on a queue that one thread uses alone.
use ether_recorder_suite.Prelude.{
  ℕ, ◌-◌, ◌≡◌, ◌≢◌, refl, Bool, Option, none, some, List, [], ◌∷◌, arith, inl, inr, Option-cases,
}
use ether_recorder_suite.Fifo
use ether_recorder_suite.Platform.Codes.{platform_wait_infinite}
use ether_recorder_suite.Platform.Event.Laws.{event_wait_returns}
use ether_recorder_suite.MessageQueue.{Message, MessageQueue, Meanwhile, push, pop}
use ether_recorder_suite.MessageQueue.Ring.{IsValid, contents}
use ether_recorder_suite.MessageQueue.Refine.{
  push_refines, pop_refines, max_size-push, max_size-pop,
}

pub data Call : Type 0 where
  send : Message → ℕ → Meanwhile → Call
  receive : ℕ → Meanwhile → Call

pub data Reply : Type 0 where
  sent : Bool → Reply
  received : Option Message → Reply

-- The replies to calls in order, up to a call that never returns.
unfoldable pub run : MessageQueue → List Call → List Reply
run q [] = []
run q (send m t env ∷ cs) = elim (push q m t env) [
  | none ↦ []
  | some (done, q') ↦ sent done ∷ run q' cs
]
run q (receive t env ∷ cs) = elim (pop q t env) [
  | none ↦ []
  | some (out, q') ↦ received out ∷ run q' cs
]

-- The same calls on a bounded queue of messages.
unfoldable pub run_fifo : ℕ → List Message → List Call → List Reply
run_fifo cap q [] = []
run_fifo cap q (send m t env ∷ cs) =
    let (done, q') = Fifo.push cap q m in sent done ∷ run_fifo cap q' cs
run_fifo cap q (receive t env ∷ cs) =
    let (out, q') = Fifo.pop q in received out ∷ run_fifo cap q' cs

-- Every call has a deadline, and no other thread is at the queue.
abbrev pub Alone : List Call → Type 0
Alone [] = Unit
Alone (send m t env ∷ cs) =
    (t ≢ platform_wait_infinite) × ((p : MessageQueue) → env.others p ≡ p) × Alone cs
Alone (receive t env ∷ cs) =
    (t ≢ platform_wait_infinite) × ((p : MessageQueue) → env.others p ≡ p) × Alone cs

push_returns :
    (q : MessageQueue) (m : Message) (t : ℕ) (env : Meanwhile)
    → t ≢ platform_wait_infinite
    → (r : Bool × MessageQueue) × (push q m t env ≡ some r)
unfolding push
push_returns q m t env h = elim (Option-cases (push q m t env)) [
  | inl stuck ↦
      let (w, e, _) = event_wait_returns q.not_full_event t env.wakeups h in
      absurd (ground (arith, stuck, e))
  | inr found ↦ found
]

pop_returns :
    (q : MessageQueue) (t : ℕ) (env : Meanwhile)
    → t ≢ platform_wait_infinite
    → (r : Option Message × MessageQueue) × (pop q t env ≡ some r)
unfolding pop
pop_returns q t env h = elim (Option-cases (pop q t env)) [
  | inl stuck ↦
      let (w, e, _) = event_wait_returns q.not_empty_event t env.wakeups h in
      absurd (ground (arith, stuck, e))
  | inr found ↦ found
]

-- No sequence of calls with deadlines, made by a thread that has a valid queue to itself, tells it
-- from a first-in first-out queue of `max_size - 1` messages: every call returns, and with the
-- same reply, whatever the timeouts and the wakeups.
pub run_refines :
    (cs : List Call) (q : MessageQueue)
    → IsValid q
    → Alone cs
    → run q cs ≡ run_fifo (q.max_size - 1) (contents q) cs
unfolding run run_fifo
run_refines [] q v a = refl
run_refines (send m t env ∷ cs) q v (deadline, alone, a) =
    let (r, e) = push_returns q m t env deadline in
    let (same, v') = push_refines q m t env r v alone e in
    let kept = max_size-push q m t env r alone e in
    ground (arith, e, run_refines cs r.1 v' a, kept, same)
run_refines (receive t env ∷ cs) q v (deadline, alone, a) =
    let (r, e) = pop_returns q t env deadline in
    let (same, v') = pop_refines q t env r v alone e in
    let kept = max_size-pop q t env r alone e in
    ground (arith, e, run_refines cs r.1 v' a, kept, same)
