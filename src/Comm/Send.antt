-- ===== src/Comm/Send.antt =====
-- `comm_send_thread`, and `handle_send`, which nothing calls.
use ether_recorder_suite.Prelude.{
  ℕ, ◌+◌, ◌-◌, Bool, true, false, ◌||◌, Option, none, some, List, [], ◌∷◌, ◌++◌, if◌then◌else◌, ltb,
  ◌==◌, take, drop,
}
use ether_recorder_suite.Platform.Codes.{
  PlatformErrorCode, platform_error_success, platform_error_timeout,
}
use ether_recorder_suite.Socket.{
  Socket, SendCall, SelectCall, platform_socket_send, platform_socket_wait_writable,
}
use ether_recorder_suite.MessageQueue.{Meanwhile, Message}
use ether_recorder_suite.Registry.Core.{Label, Registry, Env}
use ether_recorder_suite.Registry.State.{ThreadRegistryError, success, queue_empty}
use ether_recorder_suite.Registry.Queues.{pop_message}
use ether_recorder_suite.Comm.{CommContext}

-- The loop that sends a message, with the bytes that it has sent, over the results of its calls of
-- `send`: whether it has sent all, and the bytes that went out. `none` where the calls end first.
unfoldable pub send_message : Option Socket → Message → ℕ → List SendCall → Option (Bool × List ℕ)
send_message socket m total_sent [] =
    if ltb total_sent m.content_size then none else some (true, [])
send_message socket m total_sent (call ∷ calls) = elim (ltb total_sent m.content_size) [
  | false ↦ some (true, [])
  | true ↦
      let result = platform_socket_send socket (m.content_size - total_sent) call in
      if result.0 == platform_error_success
      then (let rest = send_message socket m (total_sent + result.1) calls in
          elim rest [
            | none ↦ none
            | some (done, out) ↦ some (done, take result.1 (drop total_sent m.content) ++ out)
          ])
      else (let rest = send_message socket m total_sent calls in
          if result.0 == platform_error_timeout then rest else some (false, []))
]

-- The flag, the registry, the messages that have been popped and the bytes that went out.
pub record Sender : Type 0 where
  pub connection_closed : Bool
  pub registry : Registry
  pub popped : List Message
  pub out : List ℕ

pub record SendTurn : Type 0 where
  pub closed : Bool
  pub shutdown : Bool
  pub env : Env
  pub meanwhile : Meanwhile
  pub calls : List SendCall

abbrev pub is_queue_empty : ThreadRegistryError → Bool
is_queue_empty queue_empty = true
is_queue_empty _ = false

-- A `pop_message` that reports success has written a message.
abbrev pub taken : ThreadRegistryError → Option Message → Option Message
taken success m = m
taken _ m = none

-- The part of a round behind `pop_message`: whether the loop goes on.
unfoldable pub handle_popped :
    CommContext
    → List SendCall
    → ThreadRegistryError × Option Message × Registry
    → Sender
    → Option (Bool × Sender)
handle_popped context calls (code, message, r) w = elim (is_queue_empty code) [
  | true ↦ some (true, record w { registry = r })
  | false ↦ elim (taken code message) [
    | none ↦ some (false, record w { registry = r })
    | some m ↦ elim (send_message context.socket m 0 calls) [
      | none ↦ none
      | some (done, out) ↦ some (
        done,
        record w {
          registry = r;
          popped = w.popped ++ (m ∷ []);
          out = w.out ++ out;
          connection_closed = if done then w.connection_closed else true;
        },
      )
    ]
  ]
]

-- `comm_send_thread` with the label of its thread; `none` where the turns end first.
unfoldable pub comm_send_thread :
    CommContext → Option Label → List SendTurn → Sender → Option Sender
comm_send_thread context label [] w = none
comm_send_thread context label (turn ∷ turns) w =
    let w' = record w { connection_closed = w.connection_closed || turn.closed } in
    elim (w'.connection_closed || turn.shutdown) [
      | true ↦ some w'
      | false ↦ elim (pop_message turn.env label 0 turn.meanwhile w'.registry) [
        | none ↦ none
        | some popped ↦ elim (handle_popped context turn.calls popped w') [
          | none ↦ none
          | some (goes_on, w'') ↦ elim goes_on [
            | true ↦ comm_send_thread context label turns w''
            | false ↦ some w''
          ]
        ]
      ]
    ]

-- `handle_send` into a buffer of so many bytes, with the flag: the number that it returns, where
-- `true` is 1 and `false` is 0, and how many bytes went out.
unfoldable pub handle_send :
    CommContext → ℕ → (ℕ → SelectCall) → SendCall → Bool → PlatformErrorCode × ℕ × Bool
handle_send context buffer_size select call closed =
    if buffer_size == 0
    then (2, 0, closed)
    else (let result = platform_socket_wait_writable context.socket context.timeout_ms select in
        if result == platform_error_success
        then (let (err, sent) = platform_socket_send context.socket buffer_size call in
            if err == platform_error_success
            then (platform_error_success, sent, closed)
            else (err, 0, true))
        else if result == platform_error_timeout
        then (1, 0, closed)
        else (0, 0, true))
