-- ===== src/Comm.antt =====
-- EtherRecorder/src/comm_context.c: the two threads of a connection and the relay between
-- connections.
pub mod Relay
pub mod Relayed
pub mod Receive
pub mod Timeouts
pub mod Send
pub mod Sent
pub mod Stream
use ether_recorder_suite.Prelude.{ℕ, Bool, List}
use ether_recorder_suite.Socket.{Socket}
use ether_recorder_suite.Prelude.{Option}
use ether_recorder_suite.Registry.Core.{Label}

-- `CommContext` but for the flag `connection_closed`, which the threads share, and what the code
-- here does not read. The label is empty where there is none.
pub record CommContext : Type 0 where
  pub socket : Option Socket
  pub is_relay_enabled : Bool
  pub timeout_ms : ℕ
  pub foreign_queue_label : Label

-- DEFAULT_THREAD_WAIT_TIMEOUT_MS
abbrev pub default_thread_wait_timeout_ms : ℕ
default_thread_wait_timeout_ms = 5000
