-- ===== src/Tests/Apps.antt =====
-- The suppression of threads, the wait for the logger and the service of a queue at small inputs.
use ether_recorder_suite.Prelude.{
  ℕ, ◌≡◌, refl, true, false, some, List, [], ◌∷◌, arith, bytes_eq, codes, replicate, length, take,
  if◌then◌else◌,
}
use ether_recorder_suite.Platform.Event.{Setup}
use ether_recorder_suite.Tests.Queues.{asleep}
use ether_recorder_suite.MessageQueue.{Message, MessageQueue, payload}
use ether_recorder_suite.Registry.State.{ThreadState, created, running}
use ether_recorder_suite.Registry.Core.{Registry, Entry, Env, alive}
use ether_recorder_suite.Text.{split_at}
use ether_recorder_suite.Text.Trim.{starts_bare, ends_bare}
use ether_recorder_suite.AppThread.{
  ThreadResult, thread_success, thread_error_logger_timeout, is_thread_suppressed, wait_for_logger,
}
use ether_recorder_suite.AppThread.Suppression.{
  AllLabels, joined, any_label, none_left, one_more, is_thread_suppressed-joined,
}
use ether_recorder_suite.AppThread.Logger.{any_running, wait_for_logger_lem}
use ether_recorder_suite.AppThread.Service.{ServiceConfig, Turn, Served, service_thread_queue}
use ether_recorder_suite.AppThread.Batches.{IsBatch, service_thread_queue_lem}

abbrev labels : List (List ℕ)
labels = codes "client" ∷ codes "Server" ∷ []

labels-AllLabels : AllLabels labels
unfolding split_at starts_bare ends_bare
labels-AllLabels =
    one_more (codes "client") refl refl refl (one_more (codes "Server") refl refl refl none_left)

is_thread_suppressed-joined_example :
    is_thread_suppressed (some (joined labels)) (some (codes "SERVER"))
    ≡ any_label (codes "SERVER") labels
is_thread_suppressed-joined_example =
    is_thread_suppressed-joined (codes "SERVER") labels refl labels-AllLabels

polls : List ThreadState
polls = created ∷ running ∷ replicate 498 created

enough_polls : 500 ≡ length polls
unfolding polls
enough_polls = refl

wait_for_logger_lem_example :
    wait_for_logger (codes "CLIENT") polls
    ≡ some (if any_running (take 500 polls) then thread_success else thread_error_logger_timeout)
unfolding bytes_eq
wait_for_logger_lem_example =
    wait_for_logger_lem (codes "CLIENT") polls refl (omega (arith, enough_polls))

abbrev setup : Setup
setup = record { allocated = true; mutex_init = 0; cond_init = 0 }

abbrev env : Env
env = record {
  lock_ok = true;
  relock_ok = λ i. true;
  calloc_ok = true;
  calloc_entries_ok = true;
  event = setup;
  second_event = setup;
  current = 7;
  status = λ i. some alive;
}

abbrev message : ℕ → Message
message n = record { type = payload; content_size = 1; content = n ∷ [] }

abbrev queue : MessageQueue
queue = record {
  entries = message 5 ∷ message 6 ∷ message 7 ∷ message 8 ∷ [];
  head = 0;
  tail = 3;
  max_size = 4;
  not_empty_event = record { signaled = false; manual_reset = false };
  not_full_event = record { signaled = true; manual_reset = false };
  owner_label = codes "CLIENT";
}

abbrev entry : Entry
entry = record {
  thread = record { label = some (codes "CLIENT"); thread_id = 7; exit_func = true };
  state = running;
  auto_cleanup = true;
  queue = some queue;
  completion_event = record { signaled = false; manual_reset = true };
}

abbrev registry : Registry
registry = record { initialized = true; entries = entry ∷ []; count = 1; depth = 0 }

abbrev processor : Message → ThreadResult
processor m = thread_success

abbrev service : ServiceConfig
service = record {
  label = some (codes "CLIENT");
  msg_processor = some processor;
  max_process_time_ms = 100;
  msg_batch_size = 2;
}

abbrev turn : Turn
turn = record { now = 1005; env = env; meanwhile = record { wakeups = asleep; others = λ q. q } }

service_thread_queue_lem_example :
    (out : Served) × (service_thread_queue service 1000 (turn ∷ turn ∷ turn ∷ []) registry
      ≡ some out)
    × IsBatch service processor out
service_thread_queue_lem_example =
    service_thread_queue_lem service processor 1000 (turn ∷ turn ∷ turn ∷ []) registry refl
      (omega arith) (omega arith)
