-- ===== src/Command/Context.antt =====
-- The state machine of one connection.
use ether_recorder_suite.Prelude.{
  ℕ, ◌+◌, ◌-◌, ◌%◌, ◌^◌, Bool, ◌||◌, List, [], ◌∷◌, ◌==◌, ltb, if◌then◌else◌, length, take, drop,
}
use ether_recorder_suite.Platform.Codes.{PlatformErrorCode, platform_error_success}
use ether_recorder_suite.Command.Wire.{word_at, start_marker, end_marker, ack_packet}

abbrev pub max_buffer_size : ℕ
max_buffer_size = 4096

pub data ProcessResult : Type 0 where
  need_more_data ok fail : ProcessResult

pub data CommandState : Type 0 where
  wait_for_start wait_for_length wait_for_message send_ack : CommandState

-- `buffer` is the first `buffer_length` bytes of the array.
pub record CommandContext : Type 0 where
  pub buffer : List ℕ
  pub message_length : ℕ
  pub received_index : ℕ
  pub ack_index : ℕ
  pub current_state : CommandState

-- What the outside sees: the commands that are processed and the packets that are sent.
pub data Event : Type 0 where
  processed : List ℕ → Event
  sent : List ℕ → Event

-- What the library and the socket answer in one round of the loop: `malloc`, and the code and the
-- number of bytes of the send.
pub record Answers : Type 0 where
  pub malloc_ok : Bool
  pub send_code : PlatformErrorCode
  pub bytes_sent : ℕ

abbrev pub Outcome : Type 0
Outcome = ProcessResult × CommandContext × List Event

unfoldable pub process_wait_for_start : CommandContext → Outcome
process_wait_for_start c =
    if ltb (length c.buffer) 4
    then (need_more_data, c, [])
    else if word_at c.buffer 0 == start_marker
    then (ok, record c { current_state = wait_for_length }, [])
    else (fail, c, [])

unfoldable pub process_wait_for_length : CommandContext → Outcome
process_wait_for_length c =
    if ltb (length c.buffer) 8
    then (need_more_data, c, [])
    else let c' = record c { message_length = word_at c.buffer 4 } in
      if ltb max_buffer_size c'.message_length || ltb c'.message_length 12
      then (fail, c', [])
      else (ok, record c' { current_state = wait_for_message }, [])

-- The body of the message: what follows the two words, up to the end marker.
abbrev pub message_body : CommandContext → List ℕ
message_body c = take (c.message_length - 12) (drop 8 c.buffer)

unfoldable pub process_wait_for_message : Answers → CommandContext → Outcome
process_wait_for_message a c =
    if ltb (length c.buffer) c.message_length
    then (need_more_data, c, [])
    else if word_at c.buffer (c.message_length - 4) == end_marker
    then if a.malloc_ok
      then (
        ok,
        record c { buffer = drop c.message_length c.buffer; current_state = send_ack },
        processed (message_body c) ∷ [],
      )
      else (fail, c, [])
    else (fail, c, [])

-- `ack_index` is an `uint32_t` that wraps.
unfoldable pub process_send_ack : Answers → CommandContext → Outcome
process_send_ack a c =
    let packet = ack_packet c.received_index c.ack_index in
    let c' = record c { ack_index = (c.ack_index + 1) % 2 ^ 32 } in
    if a.send_code == platform_error_success
    then if a.bytes_sent == length packet
      then (ok, record c' { current_state = wait_for_start }, sent packet ∷ [])
      else (fail, c', sent packet ∷ [])
    else (fail, c', sent packet ∷ [])

-- The `switch` of the loop.
unfoldable pub dispatch : CommandState → Answers → CommandContext → Outcome
unfolding process_wait_for_start process_wait_for_length process_wait_for_message process_send_ack
dispatch wait_for_start a c = process_wait_for_start c
dispatch wait_for_length a c = process_wait_for_length c
dispatch wait_for_message a c = process_wait_for_message a c
dispatch send_ack a c = process_send_ack a c
