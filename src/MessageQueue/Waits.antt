-- ===== src/MessageQueue/Waits.antt =====
-- What a push or a pop that has to wait makes of the code of the wait, whatever other threads do.
use ether_recorder_suite.Prelude.{ℕ, ◌≡◌, ◌≢◌, true, false, some, arith, inl, inr, Option-cases}
use ether_recorder_suite.Platform.Codes.{platform_error_success}
use ether_recorder_suite.Platform.Event.{Event, event_wait}
use ether_recorder_suite.Platform.Event.Laws.{event_wait_outcome}
use ether_recorder_suite.MessageQueue.{
  Message, MessageQueue, Meanwhile, is_full, is_empty, push, pop, push_woken, pop_woken,
}

-- A push onto a full queue whose event for writers is signaled fails, also where another thread
-- makes room for it before it looks again: success of the wait is taken for its failure.
pub push_signaled_fails :
    (q : MessageQueue) (m : Message) (timeout_ms : ℕ) (env : Meanwhile)
    → is_full q ≡ true
    → q.not_full_event.signaled ≡ true
    → (q' : MessageQueue) × (push q m timeout_ms env ≡ some (false, q'))
unfolding push push_woken event_wait
push_signaled_fails q m t env full set = elim (Option-cases (push q m t env)) [
  | inl stuck ↦ absurd (ground (arith, stuck))
  | inr ((done, q'), e) ↦ (q', ground (arith, e))
]

-- A pop that finds the queue empty gets a message only if its wait did not succeed: it ended with
-- another code than success, at an event that was not signaled when it began.
pub pop_after_wait_failed :
    (q : MessageQueue) (timeout_ms : ℕ) (env : Meanwhile) (m : Message) (q' : MessageQueue)
    → is_empty q ≡ true
    → pop q timeout_ms env ≡ some (some m, q')
    → (w : ℕ × Event) × (event_wait q.not_empty_event timeout_ms env.wakeups ≡ some w)
      × (w.0 ≢ platform_error_success)
      × (q.not_empty_event.signaled ≡ false)
unfolding pop pop_woken
pop_after_wait_failed q t env m q' empty h =
    elim (Option-cases (event_wait q.not_empty_event t env.wakeups)) [
      | inl e ↦ absurd (ground (arith, e))
      | inr (w, e) ↦ (
        w,
        e,
        ground (arith, e),
        ground (arith, e, event_wait_outcome q.not_empty_event t env.wakeups w),
      )
    ]
