-- ===== src/Tests/Comms.antt =====
-- The threads of a connection at small inputs.
use ether_recorder_suite.Prelude.{
  ℕ, ◌+◌, ◌≡◌, ◌<◌, ◌≤◌, refl, inl, inr, Bool, true, false, none, some, List, [], ◌∷◌, ◌++◌, arith,
  codes, length, leb, bytes_eq,
}
use ether_recorder_suite.Platform.Event.{Setup}
use ether_recorder_suite.Tests.Queues.{asleep}
use ether_recorder_suite.Socket.{
  SendCall, sent, send_error, received, select_timeout, selected, Descriptor, platform_socket_send,
  platform_socket_receive, platform_socket_wait_readable,
}
use ether_recorder_suite.MessageQueue
use ether_recorder_suite.MessageQueue.{Message, MessageQueue, Meanwhile, payload}
use ether_recorder_suite.MessageQueue.Ring.{IsValid, no_message}
use ether_recorder_suite.Registry.State.{running, success}
use ether_recorder_suite.Registry.Core.{
  Label, Registry, Entry, Env, alive, validate_thread_label, find_thread, modify,
}
use ether_recorder_suite.Registry.Queues.{pop_message, queue_of}
use ether_recorder_suite.Comm.{CommContext}
use ether_recorder_suite.Comm.Relay.{process_relay_data}
use ether_recorder_suite.Comm.Relayed.{Relayed, process_relay_data_lem}
use ether_recorder_suite.Comm.Receive.{ReceiveTurn, Receiver, comm_receive_thread}
use ether_recorder_suite.Comm.Timeouts
use ether_recorder_suite.Comm.Timeouts.{IsQuiet, AllQuiet, timeouts, comm_receive_thread-timeouts}
use ether_recorder_suite.Comm.Send.{SendTurn, Sender, send_message, handle_popped, comm_send_thread}
use ether_recorder_suite.Comm.Sent.{sum}
use ether_recorder_suite.Comm.Stream.{IsStream, comm_send_thread-IsStream, send_error_closes}

abbrev pub setup : Setup
setup = record { allocated = true; mutex_init = 0; cond_init = 0 }

abbrev pub env : Env
env = record {
  lock_ok = true;
  relock_ok = λ i. true;
  calloc_ok = true;
  calloc_entries_ok = true;
  event = setup;
  second_event = setup;
  current = 7;
  status = λ i. some alive;
}

abbrev pub nobody : Meanwhile
nobody = record { wakeups = asleep; others = λ q. q }

abbrev message : List ℕ → Message
message bytes = record { type = payload; content_size = length bytes; content = bytes }

abbrev pub server_send : Label
server_send = codes "SERVER.SEND"

abbrev pub queue : MessageQueue
queue = record {
  entries = message (codes "abc") ∷ no_message ∷ no_message ∷ [];
  head = 0;
  tail = 1;
  max_size = 3;
  not_empty_event = record { signaled = true; manual_reset = false };
  not_full_event = record { signaled = true; manual_reset = false };
  owner_label = server_send;
}

abbrev entry : Entry
entry = record {
  thread = record { label = some server_send; thread_id = 7; exit_func = true };
  state = running;
  auto_cleanup = true;
  queue = some queue;
  completion_event = record { signaled = false; manual_reset = true };
}

abbrev pub registry : Registry
registry = record { initialized = true; entries = entry ∷ []; count = 1; depth = 0 }

abbrev context : Bool → CommContext
context relays = record {
  socket = some (record { blocking = true });
  is_relay_enabled = relays;
  timeout_ms = 1000;
  foreign_queue_label = server_send;
}

pub queue-IsValid : IsValid queue
queue-IsValid = ground arith

process_relay_data_lem_example :
    (s : Registry) × (process_relay_data (context true) env (λ k. nobody) (codes "xyz") registry
      ≡ some (leb 3 1472, s))
    × Relayed server_send (codes "xyz") queue s
unfolding bytes_eq find_thread validate_thread_label queue_of
process_relay_data_lem_example =
    process_relay_data_lem (context true) env (λ k. nobody) (codes "xyz") registry queue refl
      (ground arith) refl refl refl queue-IsValid (ground arith) (ground arith)

abbrev descriptor : Descriptor
descriptor = record { not_negative = true; in_range = true; open_flag = true }

abbrev silent : ReceiveTurn
silent = record {
  closed = false;
  shutdown = false;
  descriptor = descriptor;
  select = select_timeout;
  recv = received [];
  others_count = λ n. n;
  env = env;
  meanwhile = λ k. nobody;
}

abbrev gives : List ℕ → ReceiveTurn
gives bytes = record silent { select = selected true; recv = received bytes }

abbrev receiver : ℕ → Receiver
receiver n = record {
  connection_closed = false;
  timeout_count = n;
  registry = registry;
  logged = [];
}

-- Data comes in between the ninth and the tenth timeout.
abbrev turns : List ReceiveTurn
turns = silent ∷ gives (codes "xy") ∷ silent ∷ []

silent-IsQuiet : IsQuiet (context false) silent
unfolding platform_socket_wait_readable
silent-IsQuiet = record { is_open = refl; goes_on = refl; alone = λ n. refl; ends = inl refl }

gives-IsQuiet : IsQuiet (context false) (gives (codes "xy"))
unfolding platform_socket_wait_readable platform_socket_receive
gives-IsQuiet = record {
  is_open = refl;
  goes_on = refl;
  alone = λ n. refl;
  ends = inr (refl, refl);
}

turns-AllQuiet : AllQuiet (context false) turns
turns-AllQuiet = Timeouts.one_more silent silent-IsQuiet (
    Timeouts.one_more (gives (codes "xy")) gives-IsQuiet
      (Timeouts.one_more silent silent-IsQuiet Timeouts.none_left))

comm_receive_thread-timeouts_example :
    (8 + timeouts (context false) turns < 10
      → comm_receive_thread (context false) turns (receiver 8) ≡ none)
    × (10 ≤ 8 + timeouts (context false) turns
        → (w' : Receiver) × (comm_receive_thread (context false) turns (receiver 8) ≡ some w')
          × (w'.connection_closed ≡ false)
          × (w'.timeout_count ≡ 0))
comm_receive_thread-timeouts_example =
    comm_receive_thread-timeouts (context false) turns (receiver 8) refl refl (omega arith)
      turns-AllQuiet

abbrev turn : List SendCall → SendTurn
turn calls = record {
  closed = false;
  shutdown = false;
  env = env;
  meanwhile = nobody;
  calls = calls;
}

abbrev sender : Sender
sender = record { connection_closed = false; registry = registry; popped = []; out = [] }

abbrev last_turn : SendTurn
last_turn = record (turn []) { shutdown = true }

-- The message goes out in two pieces.
abbrev after : Sender
after = record sender {
  registry = record registry {
    entries = record entry { queue = some (record queue { head = 1 }) } ∷ [];
  };
  popped = message (codes "abc") ∷ [];
  out = codes "abc";
}

sends_abc :
    comm_send_thread
      (context false)
      (some server_send)
      (turn (sent 2 ∷ sent 9 ∷ []) ∷ last_turn ∷ [])
      sender
    ≡ some after
unfolding comm_send_thread handle_popped send_message platform_socket_send pop_message find_thread
    modify bytes_eq MessageQueue.pop
sends_abc = refl

comm_send_thread-IsStream_example : IsStream sender after
comm_send_thread-IsStream_example =
    comm_send_thread-IsStream (context false) (some server_send)
      (turn (sent 2 ∷ sent 9 ∷ []) ∷ last_turn ∷ []) sender after sends_abc

pops_abc :
    pop_message env (some server_send) 0 nobody registry
    ≡ some (success, some (message (codes "abc")), after.registry)
unfolding pop_message find_thread modify bytes_eq MessageQueue.pop
pops_abc = refl

send_error_closes_example :
    comm_send_thread
      (context false)
      (some server_send)
      (turn (sent 2 ∷ send_error true ∷ []) ∷ [])
      sender
    ≡ some (record {
      connection_closed = true;
      registry = after.registry;
      popped = [] ++ (message (codes "abc") ∷ []);
      out = codes "ab";
    })
unfolding sum
send_error_closes_example =
    send_error_closes (context false) (some server_send) (turn (sent 2 ∷ send_error true ∷ [])) []
      sender (record { blocking = true }) (message (codes "abc")) after.registry (2 ∷ []) true []
      refl refl refl refl pops_abc (omega arith) refl
