-- ===== src/AppThread/Service.antt =====
-- EtherRecorder/src/app_thread.c: `service_thread_queue`, the batches in which a thread processes
-- the messages of its queue.
use ether_recorder_suite.Prelude.{
  ℕ, ◌+◌, ◌-◌, ◌%◌, ◌^◌, Bool, true, false, ◌&&◌, Option, none, some, List, [], ◌∷◌, ◌++◌, ltb, leb,
  length,
}
use ether_recorder_suite.MessageQueue.{Message, Meanwhile}
use ether_recorder_suite.Registry.State.{ThreadRegistryError, success, queue_empty}
use ether_recorder_suite.Registry.Core.{Label, Registry, Env}
use ether_recorder_suite.Registry.Queues.{pop_message}
use ether_recorder_suite.AppThread.{ThreadResult, thread_success, thread_error_queue_error}

-- What `service_thread_queue` reads of a `ThreadConfig`; the processor may be null.
pub record ServiceConfig : Type 0 where
  pub label : Option Label
  pub msg_processor : Option (Message → ThreadResult)
  pub max_process_time_ms : ℕ
  pub msg_batch_size : ℕ

-- What one round of the loop meets: the clock, the calls of the registry, the other threads.
pub record Turn : Type 0 where
  pub now : ℕ
  pub env : Env
  pub meanwhile : Meanwhile

abbrev pub is_success : ThreadResult → Bool
is_success thread_success = true
is_success _ = false

-- The time limit, on a clock of 32 bits.
unfoldable pub out_of_time : ServiceConfig → ℕ → ℕ → Bool
out_of_time config start_time now =
    ltb 0 config.max_process_time_ms
    && leb config.max_process_time_ms ((now + 2 ^ 32 - start_time % 2 ^ 32) % 2 ^ 32)

unfoldable pub batch_done : ServiceConfig → ℕ → Bool
batch_done config processed = ltb 0 config.msg_batch_size && leb config.msg_batch_size processed

abbrev pub is_queue_empty : ThreadRegistryError → Bool
is_queue_empty queue_empty = true
is_queue_empty _ = false

-- A `pop_message` that reports success has written a message.
abbrev pub received : ThreadRegistryError → Option Message → Option Message
received success m = m
received _ m = none

-- The result of the loop, the messages that it has processed, and the registry.
abbrev pub Served : Type 0
Served = ThreadResult × List Message × Registry

-- The part of a round behind `pop_message`, with the rounds that follow.
unfoldable pub after_pop :
    (Message → ThreadResult)
    → (List Message → Registry → Option Served)
    → List Message
    → ThreadRegistryError × Option Message × Registry
    → Option Served
after_pop processor continue processed (code, message, r) = elim (is_queue_empty code) [
  | true ↦ some (thread_success, processed, r)
  | false ↦ elim (received code message) [
    | none ↦ some (thread_error_queue_error, processed, r)
    | some m ↦ elim (is_success (processor m)) [
      | true ↦ continue (processed ++ (m ∷ [])) r
      | false ↦ some (processor m, processed ++ (m ∷ []), r)
    ]
  ]
]

-- The loop, with the messages that it has processed; `none` where the list of turns ends first.
unfoldable pub service_loop :
    ServiceConfig
    → (Message → ThreadResult)
    → ℕ
    → List Turn
    → List Message
    → Registry
    → Option Served
service_loop config processor start_time [] processed r = none
service_loop config processor start_time (t ∷ turns) processed r =
    elim (out_of_time config start_time t.now) [
      | true ↦ some (thread_success, processed, r)
      | false ↦ elim (batch_done config (length processed)) [
        | true ↦ some (thread_success, processed, r)
        | false ↦ elim (pop_message t.env config.label 0 t.meanwhile r) [
          | none ↦ none
          | some popped ↦
              after_pop processor (service_loop config processor start_time turns) processed popped
        ]
      ]
    ]

unfoldable pub service_thread_queue : ServiceConfig → ℕ → List Turn → Registry → Option Served
service_thread_queue config start_time turns r = elim config.msg_processor [
  | none ↦ some (thread_success, [], r)
  | some processor ↦ service_loop config processor start_time turns [] r
]
