-- ===== src/Tests/Threads.antt =====
-- The registry of threads at small inputs.
use ether_recorder_suite.Prelude.{
  ℕ, ◌≡◌, ◌≢◌, refl, sym, ap, Bool, true, false, none, some, [], ◌∷◌, arith, bytes_eq, codes,
  replicate,
}
use ether_recorder_suite.Platform.Codes.{PlatformWaitResult, wait_success}
use ether_recorder_suite.Platform.Event.{Event, Setup, event_create}
use ether_recorder_suite.Tests.Queues.{asleep}
use ether_recorder_suite.MessageQueue
use ether_recorder_suite.MessageQueue.{Message, Meanwhile, payload}
use ether_recorder_suite.Registry.State.{
  ThreadState, ThreadRegistryError, created, running, terminated, success, invalid_state_transition,
  validate_state_transition,
}
use ether_recorder_suite.Registry.Core.{
  Label, ThreadConfig, Entry, Registry, Env, alive, find_thread, modify, remove,
}
use ether_recorder_suite.Registry.Ops.{
  register, update_state, deregister, init_global_thread_registry,
}
use ether_recorder_suite.Registry.Queues.{pop_message}
use ether_recorder_suite.Registry.Waits.{wait_list, wait_loop}
use ether_recorder_suite.Registry.Waits.Laws.{wait_list_never_waits, wait_loop_deadline}
use ether_recorder_suite.Registry.Inv.{IsValid}
use ether_recorder_suite.Registry.Reach.{
  Step, Reach, here, next, initial, initialize, registers, updates, Reach-IsValid,
}
use ether_recorder_suite.Registry.Laws.{
  Moved, update_state_lem, terminated_needs_stopping, pop_message_owner,
}
use ether_recorder_suite.Registry.Membership.{Joined, register_lem, deregister_lem}

abbrev setup : Setup
setup = record { allocated = true; mutex_init = 0; cond_init = 0 }

abbrev env : Env
env = record {
  lock_ok = true;
  relock_ok = λ i. true;
  calloc_ok = true;
  calloc_entries_ok = true;
  event = setup;
  second_event = setup;
  current = 7;
  status = λ i. some alive;
}

abbrev logger : Label
logger = codes "LOGGER"

abbrev logger_thread : ThreadConfig
logger_thread = record { label = some logger; thread_id = 7; exit_func = true }

abbrev ready : Registry
ready = record { initialized = true; entries = []; count = 0; depth = 0 }

abbrev logger_entry : ThreadState → Entry
logger_entry s = record {
  thread = logger_thread;
  state = s;
  auto_cleanup = true;
  queue = none;
  completion_event = record { signaled = false; manual_reset = true };
}

abbrev with_logger : ThreadState → Registry
with_logger s = record ready { entries = logger_entry s ∷ []; count = 1 }

registered_logger : register env (some logger_thread) true ready ≡ (success, with_logger created)
unfolding register find_thread event_create
registered_logger = refl

running_logger :
    update_state env (some logger) running (with_logger created) ≡ (success, with_logger running)
unfolding update_state find_thread modify bytes_eq validate_state_transition
running_logger = refl

removed_logger : deregister env (some logger) (with_logger running) ≡ (success, ready)
unfolding deregister find_thread remove bytes_eq
removed_logger = refl

initialized : Step initial ready
initialized = initialize true (unfold init_global_thread_registry in refl)

registered : Step ready (with_logger created)
registered =
    registers env (some logger_thread) true
      (ap (λ (p : ThreadRegistryError × Registry). p.1) (sym registered_logger))

started : Step (with_logger created) (with_logger running)
started =
    updates env (some logger) running
      (ap (λ (p : ThreadRegistryError × Registry). p.1) (sym running_logger))

logger_started : Reach initial (with_logger running)
logger_started = next (next (next here initialized) registered) started

Reach-IsValid_example : IsValid (with_logger running)
Reach-IsValid_example = Reach-IsValid logger_started

update_state_lem_example :
    Moved logger running
      (with_logger created)
      (update_state env (some logger) running (with_logger created))
update_state_lem_example = update_state_lem env logger running (with_logger created)

terminated_needs_stopping_example :
    ((update_state env (some logger) terminated (with_logger running)).0 ≡ invalid_state_transition)
    × ((update_state env (some logger) terminated (with_logger running)).1.entries
        ≡ logger_entry running ∷ [])
terminated_needs_stopping_example =
    terminated_needs_stopping env logger (with_logger running) (logger_entry running) refl
      (omega arith) refl (unfold find_thread bytes_eq in refl) (λ e. cc)

register_lem_example :
    Joined logger_thread true logger ready (register env (some logger_thread) true ready)
register_lem_example = register_lem env logger_thread logger true ready refl

deregister_lem_example :
    ((k : Label)
      → k ≢ logger
      → find_thread k (deregister env (some logger) (with_logger running)).1.entries
        ≡ find_thread k (logger_entry running ∷ []))
    × ((deregister env (some logger) (with_logger running)).0 ≡ success
        → (find_thread logger (deregister env (some logger) (with_logger running)).1.entries ≡ none)
          × (find_thread logger (logger_entry running ∷ []) ≢ none))
    × ((deregister env (some logger) (with_logger running)).0 ≢ success
        → (deregister env (some logger) (with_logger running)).1.entries
          ≡ logger_entry running ∷ [])
deregister_lem_example =
    deregister_lem env logger (with_logger running) (Reach-IsValid logger_started)

abbrev message : Message
message = record { type = payload; content_size = 1; content = 5 ∷ [] }

abbrev nobody : Meanwhile
nobody = record { wakeups = asleep; others = λ q. q }

abbrev auto : Bool → Event
auto set = record { signaled = set; manual_reset = false }

abbrev queue_with : ℕ → MessageQueue.MessageQueue
queue_with head = record {
  entries = message ∷ message ∷ [];
  head = head;
  tail = 1;
  max_size = 2;
  not_empty_event = auto true;
  not_full_event = auto true;
  owner_label = logger;
}

abbrev with_queue : ℕ → Registry
with_queue head = record ready {
  entries = record (logger_entry running) { queue = some (queue_with head) } ∷ [];
  count = 1;
}

pop_message_owner_example :
    (e : Entry) × (find_thread logger (with_queue 0).entries ≡ some e) × (e.thread.thread_id ≡ 7)
pop_message_owner_example =
    pop_message_owner env logger 0 nobody (with_queue 0) (some message) (with_queue 1)
      (unfold pop_message MessageQueue.pop find_thread modify bytes_eq in refl)

wait_list_never_waits_example :
    wait_list true (some (7 ∷ [])) 5000 ((logger_entry running ∷ []) ∷ []) ≡ some wait_success
wait_list_never_waits_example =
    wait_list_never_waits (7 ∷ []) 5000 (logger_entry running ∷ []) [] (λ e. cc)

wait_loop_deadline_example :
    (r : PlatformWaitResult) × (wait_loop
        (7 ∷ [])
        (true ∷ [])
        15
        (replicate 2 (logger_entry running ∷ []))
      ≡ some r)
wait_loop_deadline_example =
    wait_loop_deadline (7 ∷ []) (true ∷ []) 15 (replicate 2 (logger_entry running ∷ []))
      (omega arith) (omega arith)
