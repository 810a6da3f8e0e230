-- ===== src/Comm/Receive.antt =====
-- `handle_receive` and `comm_receive_thread`.
use ether_recorder_suite.Prelude.{
  ℕ, ◌+◌, Bool, true, false, ◌||◌, Option, none, some, List, [], ◌∷◌, ◌++◌, if◌then◌else◌, leb,
  ◌==◌,
}
use ether_recorder_suite.Platform.Codes.{platform_error_success, platform_error_timeout}
use ether_recorder_suite.Socket.{
  Descriptor, SelectCall, ReceiveCall, platform_socket_wait_readable, platform_socket_receive,
}
use ether_recorder_suite.MessageQueue.{Meanwhile}
use ether_recorder_suite.Registry.Core.{Registry, Env}
use ether_recorder_suite.Comm.{CommContext}
use ether_recorder_suite.Comm.Relay.{process_relay_data}

-- The flag `connection_closed`, the static `timeout_count`, which the receiving threads of all
-- connections share, the registry with the queues, and the
-- data that has been received, as it is logged.
pub record Receiver : Type 0 where
  pub connection_closed : Bool
  pub timeout_count : ℕ
  pub registry : Registry
  pub logged : List (List ℕ)

-- What one round of the loop meets: whether another thread has closed the connection by then, the
-- flag for shutdown, the system calls, what the receiving threads of other connections have made of
-- `timeout_count` by the end of the wait, the registry and the other threads in a push.
pub record ReceiveTurn : Type 0 where
  pub closed : Bool
  pub shutdown : Bool
  pub descriptor : Descriptor
  pub select : SelectCall
  pub recv : ReceiveCall
  pub others_count : ℕ → ℕ
  pub env : Env
  pub meanwhile : ℕ → Meanwhile

-- The size of the buffer of `comm_receive_thread`.
abbrev pub receive_buffer_size : ℕ
receive_buffer_size = 4096

-- The received data, logged and relayed; an issue with the relay is no issue of the receive.
unfoldable pub take_in : CommContext → ReceiveTurn → List ℕ → Receiver → Option (Bool × Receiver)
take_in context turn bytes w =
    elim (process_relay_data context turn.env turn.meanwhile bytes w.registry) [
      | none ↦ none
      | some (relayed, r) ↦
          some (true, record w { registry = r; logged = w.logged ++ (bytes ∷ []) })
    ]

-- The result is whether the loop goes on; `none` is a push of the relay that waits for ever.
unfoldable pub handle_receive : CommContext → ReceiveTurn → Receiver → Option (Bool × Receiver)
unfolding take_in
handle_receive context turn before =
    let w : Receiver = record before { timeout_count = turn.others_count before.timeout_count } in
    let result = platform_socket_wait_readable context.socket turn.descriptor turn.select in
    if result == platform_error_success
    then (let (err, bytes) = platform_socket_receive context.socket receive_buffer_size turn.recv in
        if err == platform_error_success
        then take_in context turn bytes w
        else some (false, record w { connection_closed = true }))
    else if result == platform_error_timeout
    then if leb 10 (w.timeout_count + 1)
      then some (false, record w { timeout_count = 0 })
      else some (true, record w { timeout_count = w.timeout_count + 1 })
    else some (false, record w { connection_closed = true })

-- `comm_receive_thread`; `none` where the list of turns ends first, and the thread goes on.
unfoldable pub comm_receive_thread : CommContext → List ReceiveTurn → Receiver → Option Receiver
comm_receive_thread context [] w = none
comm_receive_thread context (turn ∷ turns) w =
    let w' = record w { connection_closed = w.connection_closed || turn.closed } in
    elim (w'.connection_closed || turn.shutdown) [
      | true ↦ some w'
      | false ↦ elim (handle_receive context turn w') [
        | none ↦ none
        | some (goes_on, w'') ↦ elim goes_on [
          | true ↦ comm_receive_thread context turns w''
          | false ↦ some w''
        ]
      ]
    ]
