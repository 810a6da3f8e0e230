-- ===== src/Tests/Queues.antt =====
-- The queue of messages and the events at small inputs.
use ether_recorder_suite.Prelude.{
  ℕ, ◌≡◌, ◌≢◌, refl, Bool, true, false, none, some, ◌==◌, if◌then◌else◌, ◌+◌, ◌*◌, List, [], ◌∷◌,
  arith,
}
use ether_recorder_suite.Platform.Codes.{platform_wait_infinite}
use ether_recorder_suite.Platform.Event.{
  Event, SleepEnd, Sleep, Wakeups, woken, timed_out, event_wait, timed_wait, timed_sleep,
  timed_loop, nanoseconds, deadline,
}
use ether_recorder_suite.Platform.Event.Laws.{event_wait_returns}
use ether_recorder_suite.MessageQueue.{Message, MessageQueue, Meanwhile, payload, push, pop}
use ether_recorder_suite.MessageQueue.Ring.{IsValid, contents}
use ether_recorder_suite.MessageQueue.Traces.{
  Call, send, receive, sent, received, run, run_fifo, run_refines,
}
use ether_recorder_suite.MessageQueue.Waits.{push_signaled_fails}

abbrev message : ℕ → Message
message n = record { type = payload; content_size = 1; content = n ∷ [] }

abbrev auto : Bool → Event
auto set = record { signaled = set; manual_reset = false }

-- Three slots, two messages going round the end.
abbrev full_queue : MessageQueue
full_queue = record {
  entries = message 9 ∷ message 7 ∷ message 8 ∷ [];
  head = 2;
  tail = 1;
  max_size = 3;
  not_empty_event = auto true;
  not_full_event = auto true;
  owner_label = [];
}

abbrev empty_queue : MessageQueue
empty_queue = record full_queue { head = 1; not_empty_event = auto false }

abbrev sleep : SleepEnd → Bool → Sleep
sleep end signaled = record { elapsed = 999999; end = end; signaled = signaled }

-- No one wakes the thread before its deadline.
abbrev pub asleep : Wakeups
asleep = record {
  clock = record { tv_sec = 7; tv_nsec = 999000000 };
  timed = λ i. sleep timed_out false;
  untimed = [];
}

-- The thread is woken without a signal first.
abbrev wakes : Wakeups
wakes = record asleep { timed = λ i. sleep (if i == 0 then woken else timed_out) false }

abbrev nobody : Meanwhile
nobody = record { wakeups = wakes; others = λ q. q }

-- Another thread pushes a message without a signal that the waiter sees.
abbrev writer : Meanwhile
writer = record { wakeups = asleep; others = λ q. record q { tail = 2 } }

abbrev script : List Call
script =
    send (message 1) 5 nobody
    ∷ receive 5 nobody
    ∷ receive 5 nobody
    ∷ receive 5 nobody
    ∷ send (message 2) 5 nobody
    ∷ receive 0 nobody
    ∷ []

contents-full_queue : contents full_queue ≡ message 8 ∷ message 9 ∷ []
contents-full_queue = refl

full_queue-IsValid : IsValid full_queue
full_queue-IsValid = record {
  room = omega arith;
  small = omega arith;
  storage = refl;
  head_in = omega arith;
  tail_in = omega arith;
}

run-script :
    run full_queue script
    ≡ sent false
      ∷ received (some (message 8))
      ∷ received (some (message 9))
      ∷ received none
      ∷ sent true
      ∷ received (some (message 2))
      ∷ []
unfolding run push pop event_wait timed_wait deadline timed_loop timed_sleep
run-script = refl

deadline_fits : (n : ℕ) → n ≡ 5 → n ≢ platform_wait_infinite
deadline_fits n e = omega arith

run_refines_example : run full_queue script ≡ run_fifo 2 (message 8 ∷ message 9 ∷ []) script
run_refines_example = run_refines script full_queue full_queue-IsValid (
  deadline_fits 5 refl,
  λ p. refl,
  (
    deadline_fits 5 refl,
    λ p. refl,
    (
      deadline_fits 5 refl,
      λ p. refl,
      (
        deadline_fits 5 refl,
        λ p. refl,
        (deadline_fits 5 refl, λ p. refl, (omega arith, λ p. refl, tt)),
      ),
    ),
  ),
)

push_signaled_fails_example :
    (q : MessageQueue) × (push full_queue (message 1) 5 writer ≡ some (false, q))
push_signaled_fails_example = push_signaled_fails full_queue (message 1) 5 writer refl refl

-- The event is signaled just as the deadline comes.
abbrev late : Wakeups
late = record asleep {
  timed = λ i. sleep (if i == 0 then woken else timed_out) (if i == 0 then false else true);
}

event_wait_returns_example :
    (r : ℕ × Event) × (event_wait (auto false) 5 wakes ≡ some r)
    × (false ≡ false
        → timed_loop
            (5 * 1000000 + 1)
            (nanoseconds (deadline wakes.clock 5))
            (nanoseconds wakes.clock)
            (auto false)
            wakes.timed
            0
          ≡ some r)
event_wait_returns_example = event_wait_returns (auto false) 5 wakes (deadline_fits 5 refl)
