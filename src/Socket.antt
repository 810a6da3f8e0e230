-- ===== src/Socket.antt =====
-- PlatformLayer/posix/src/posix_sockets.c: the waits, the sends and the receives, over what the
-- system calls give. The handle may be null; the pointers for results are not.
use ether_recorder_suite.Prelude.{
  ℕ, Bool, not, ◌&&◌, Option, none, some, List, [], if◌then◌else◌, ltb, ◌==◌, min, length, take,
}
use ether_recorder_suite.Platform.Codes.{
  PlatformErrorCode, platform_error_success, platform_error_invalid_argument,
  platform_error_timeout,
}

abbrev pub platform_error_would_block : PlatformErrorCode
platform_error_would_block = 13

abbrev pub platform_error_socket_send : PlatformErrorCode
platform_error_socket_send = 105

abbrev pub platform_error_socket_receive : PlatformErrorCode
platform_error_socket_receive = 106

abbrev pub platform_error_socket_closed : PlatformErrorCode
platform_error_socket_closed = 107

abbrev pub platform_error_socket_select : PlatformErrorCode
platform_error_socket_select = 111

abbrev pub platform_error_peer_shutdown : PlatformErrorCode
platform_error_peer_shutdown = 115

-- What the functions here read of a `PlatformSocket`: `opts.blocking`.
pub record Socket : Type 0 where
  pub blocking : Bool

-- `send`: so many bytes, or an error that is EWOULDBLOCK or not.
pub data SendCall : Type 0 where
  sent : ℕ → SendCall
  send_error : Bool → SendCall

-- The code and the number of bytes; `send` takes no more bytes than it is given.
unfoldable pub platform_socket_send : Option Socket → ℕ → SendCall → PlatformErrorCode × ℕ
platform_socket_send none len call = (platform_error_invalid_argument, 0)
platform_socket_send (some s) len (sent n) = (platform_error_success, min n len)
platform_socket_send (some s) len (send_error would_block) =
    if would_block && not s.blocking
    then (platform_error_would_block, 0)
    else (platform_error_socket_send, 0)

-- `recv`.
pub data ReceiveCall : Type 0 where
  received : List ℕ → ReceiveCall
  receive_error : Bool → ReceiveCall

-- The code and the bytes; `recv` gives no more than the buffer holds.
unfoldable pub platform_socket_receive :
    Option Socket → ℕ → ReceiveCall → PlatformErrorCode × List ℕ
platform_socket_receive none len call = (platform_error_invalid_argument, [])
platform_socket_receive (some s) len (receive_error would_block) =
    if would_block && not s.blocking
    then (platform_error_would_block, [])
    else (platform_error_socket_receive, [])
platform_socket_receive (some s) len (received bytes) =
    if length (take len bytes) == 0
    then (platform_error_peer_shutdown, [])
    else (platform_error_success, take len bytes)

-- `select`: an error that is EBADF or not, the timeout, or a socket that is in the set or not.
pub data SelectCall : Type 0 where
  select_error : Bool → SelectCall
  select_timeout : SelectCall
  selected : Bool → SelectCall

-- What the wait finds of the descriptor: not negative, below FD_SETSIZE, open.
pub record Descriptor : Type 0 where
  pub not_negative : Bool
  pub in_range : Bool
  pub open_flag : Bool

unfoldable pub platform_socket_wait_readable :
    Option Socket → Descriptor → SelectCall → PlatformErrorCode
platform_socket_wait_readable none d call = platform_error_invalid_argument
platform_socket_wait_readable (some s) d call =
    if not d.not_negative
    then platform_error_socket_closed
    else if not d.in_range
    then platform_error_invalid_argument
    else if not d.open_flag
    then platform_error_socket_closed
    else elim call [
      | select_error bad ↦
          if bad then platform_error_socket_closed else platform_error_socket_select
      | select_timeout ↦ platform_error_timeout
      | selected is_set ↦ if is_set then platform_error_success else platform_error_socket_closed
    ]

-- PLATFORM_DEFAULT_WAIT_TIMEOUT_MS, PLATFORM_MAX_WAIT_TIMEOUT_MS and PLATFORM_MIN_WAIT_TIMEOUT_MS.
abbrev pub default_wait_timeout_ms : ℕ
default_wait_timeout_ms = 5000

abbrev pub max_wait_timeout_ms : ℕ
max_wait_timeout_ms = 300000

abbrev pub min_wait_timeout_ms : ℕ
min_wait_timeout_ms = 1

unfoldable pub wait_timeout : ℕ → ℕ
wait_timeout timeout_ms =
    if timeout_ms == 0
    then default_wait_timeout_ms
    else if ltb max_wait_timeout_ms timeout_ms
    then max_wait_timeout_ms
    else if ltb timeout_ms min_wait_timeout_ms
    then min_wait_timeout_ms
    else timeout_ms

-- `select` is called with the time that `wait_timeout` gives; whether the socket is in its set is
-- not looked at.
unfoldable pub platform_socket_wait_writable :
    Option Socket → ℕ → (ℕ → SelectCall) → PlatformErrorCode
platform_socket_wait_writable none timeout_ms select = platform_error_invalid_argument
platform_socket_wait_writable (some s) timeout_ms select = elim (select (wait_timeout timeout_ms)) [
  | select_error bad ↦ platform_error_socket_select
  | select_timeout ↦ platform_error_timeout
  | selected is_set ↦ platform_error_success
]
