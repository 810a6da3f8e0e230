-- ===== src/AppThread/Batches.antt =====
-- How many messages a thread processes at a time, and with what result.
use ether_recorder_suite.Prelude.{
  ℕ, ◌+◌, ◌≤◌, ◌<◌, ◌≡◌, ◌≢◌, refl, Bool, true, ◌&&◌, Option, none, some, List, [], ◌∷◌, ◌++◌,
  length, arith, Bool-cases, Option-cases, inl, inr, length-append,
}
use ether_recorder_suite.Platform.Event.Laws.{event_wait_returns}
use ether_recorder_suite.MessageQueue
use ether_recorder_suite.MessageQueue.{MessageQueue, Message, Meanwhile}
use ether_recorder_suite.Registry.State.{ThreadRegistryError}
use ether_recorder_suite.Registry.Core.{Label, Registry, Env}
use ether_recorder_suite.Registry.Ops.{with_label}
use ether_recorder_suite.Registry.Queues.{pop_message, queue_of}
use ether_recorder_suite.AppThread.{ThreadResult, thread_success, thread_error_queue_error}
use ether_recorder_suite.AppThread.Service.{
  ServiceConfig, Turn, is_success, Served, after_pop, is_queue_empty, received, out_of_time,
  batch_done, service_loop, service_thread_queue,
}

pop_returns :
    (q : MessageQueue) (env : Meanwhile)
    → (x : Option Message × MessageQueue) × (MessageQueue.pop q 0 env ≡ some x)
unfolding MessageQueue.pop
pop_returns q env = elim (Option-cases (MessageQueue.pop q 0 env)) [
  | inl e ↦
      let (r, p, _) = event_wait_returns q.not_empty_event 0 env.wakeups (ground arith) in
      absurd (ground (arith, e, p))
  | inr (x, e) ↦ (x, e)
]

popped_none :
    (env : Env) (l : Label) (mw : Meanwhile) (r : Registry) (q : MessageQueue)
    → queue_of l r ≡ some q
    → (x : Option Message × MessageQueue) → MessageQueue.pop q 0 mw ≡ some x
    → pop_message env (some l) 0 mw r ≢ none
unfolding pop_message with_label
popped_none env l mw r q o (none, q') p e = ground (arith, o, p, e)
popped_none env l mw r q o (some m, q') p e = ground (arith, o, p, e)

-- With no time to wait `pop_message` returns.
pop_message_returns :
    (env : Env) (label : Option Label) (mw : Meanwhile) (r : Registry)
    → (x : ThreadRegistryError × Option Message × Registry) × (pop_message env label 0 mw r
        ≡ some x)
unfolding pop_message with_label
pop_message_returns env none mw r = elim (Option-cases (pop_message env none 0 mw r)) [
  | inl e ↦ absurd (ground arith)
  | inr (x, e) ↦ (x, e)
]
pop_message_returns env (some l) mw r = elim (Option-cases (pop_message env (some l) 0 mw r)) [
  | inl e ↦ elim (Option-cases (queue_of l r)) [
    | inl o ↦ absurd (ground (arith, o))
    | inr (q, o) ↦ let (x, p) = pop_returns q mw in absurd (popped_none env l mw r q o x p e)
  ]
  | inr (x, e) ↦ (x, e)
]

-- Whether the processor has succeeded on all of them.
unfoldable pub all_succeed : (Message → ThreadResult) → List Message → Bool
all_succeed processor [] = true
all_succeed processor (m ∷ ms) = is_success (processor m) && all_succeed processor ms

all_succeed-append :
    (processor : Message → ThreadResult) (ms : List Message) (m : Message)
    → all_succeed processor ms ≡ true
    → is_success (processor m) ≡ true
    → all_succeed processor (ms ++ (m ∷ [])) ≡ true
unfolding all_succeed
all_succeed-append processor [] m h h' = ground arith
all_succeed-append processor (x ∷ ms) m h h' =
    ground (arith, all_succeed-append processor ms m (ground arith) h')

-- A batch that is not too long, and a result of success if all of it has been processed so.
pub record IsBatch (config : ServiceConfig) (processor : Message → ThreadResult) (out : Served)
    : Type 0 where
  pub few : length out.1 ≤ config.msg_batch_size
  pub sound : is_success out.0 ≡ true → all_succeed processor out.1 ≡ true

Serves : ServiceConfig → (Message → ThreadResult) → Option (Served) → Type 0
Serves config processor o = (out : Served) × (o ≡ some out) × IsBatch config processor out

after_pop-Serves :
    (config : ServiceConfig) (processor : Message → ThreadResult)
    (continue : List Message → Registry → Option Served) (done : List Message)
    (x : ThreadRegistryError × Option Message × Registry)
    → length done < config.msg_batch_size
    → all_succeed processor done ≡ true
    → ((m : Message) (r : Registry)
        → is_success (processor m) ≡ true
        → Serves config processor (continue (done ++ (m ∷ [])) r))
    → Serves config processor (after_pop processor continue done x)
unfolding Serves after_pop
after_pop-Serves config processor continue done (code, message, r) few ok next =
    elim (Bool-cases (is_queue_empty code)) [
      | inl e ↦ (
        (thread_success, done, r),
        ground (arith, e),
        record { few = omega arith; sound = λ h. ok },
      )
      | inr e ↦ elim (Option-cases (received code message)) [
        | inl o ↦ (
          (thread_error_queue_error, done, r),
          ground (arith, e, o),
          record { few = omega arith; sound = λ h. ok },
        )
        | inr (m, o) ↦ elim (Bool-cases (is_success (processor m))) [
          | inl s ↦ let (out, p, b) = next m r s in (out, ground (arith, e, o, s, p), b)
          | inr s ↦ (
            (processor m, done ++ (m ∷ []), r),
            ground (arith, e, o, s),
            record {
              few = omega (arith, length-append done (m ∷ []));
              sound = λ h. absurd (ground (arith, h, s));
            },
          )
        ]
      ]
    ]

service_loop-Serves :
    (config : ServiceConfig) (processor : Message → ThreadResult) (start_time : ℕ)
    (turns : List Turn) (done : List Message) (r : Registry)
    → 0 < config.msg_batch_size
    → length done ≤ config.msg_batch_size
    → config.msg_batch_size < length done + length turns
    → all_succeed processor done ≡ true
    → Serves config processor (service_loop config processor start_time turns done r)
unfolding Serves service_loop batch_done
service_loop-Serves config processor start [] done r pos few enough ok = absurd (omega arith)
service_loop-Serves config processor start (t ∷ turns) done r pos few enough ok =
    let (x, p) = pop_message_returns t.env config.label t.meanwhile r in
    let stop : IsBatch config processor (thread_success, done, r) = record {
      few = few;
      sound = λ h. ok;
    } in
    elim (Bool-cases (out_of_time config start t.now)) [
      | inl e ↦ ((thread_success, done, r), ground (arith, e), stop)
      | inr e ↦ elim (Bool-cases (batch_done config (length done))) [
        | inl b ↦ ((thread_success, done, r), ground (arith, e, b), stop)
        | inr b ↦
            let room : length done < config.msg_batch_size = ground (arith, b) in
            let (out, q, served) =
              after_pop-Serves config processor (service_loop config processor start turns) done x
                room ok
                λ m r' h.
                  service_loop-Serves config processor start turns (done ++ (m ∷ [])) r' pos
                    (omega (arith, length-append done (m ∷ [])))
                    (omega (arith, length-append done (m ∷ [])))
                    (all_succeed-append processor done m ok h) in
            (out, ground (arith, e, b, p, q), served)
      ]
    ]

-- A thread with a processor and a limit for its batches, in a registry in any state, returns from
-- the service of its queue after at most one turn more than the limit; it has processed at most the
-- limit of messages, and if its result is success the processor has succeeded on all of them.
pub service_thread_queue_lem :
    (config : ServiceConfig) (processor : Message → ThreadResult) (start_time : ℕ)
    (turns : List Turn) (r : Registry)
    → config.msg_processor ≡ some processor
    → 0 < config.msg_batch_size
    → config.msg_batch_size < length turns
    → (out : Served) × (service_thread_queue config start_time turns r ≡ some out)
      × IsBatch config processor out
unfolding service_thread_queue Serves all_succeed
service_thread_queue_lem config processor start_time turns r p pos enough =
    let (out, e, b) =
      service_loop-Serves config processor start_time turns [] r pos (omega arith)
        (omega (arith, enough)) refl in
    (out, ground (arith, p, e), b)
