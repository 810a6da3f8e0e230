-- ===== src/Command/Connection.antt =====
-- `handle_client_connection`: the loop that receives and processes.
use ether_recorder_suite.Prelude.{
  ℕ, ◌-◌, Bool, true, false, not, ◌||◌, List, [], ◌∷◌, ◌++◌, ◌==◌, ltb, if◌then◌else◌, length, take,
}
use ether_recorder_suite.Platform.Codes.{PlatformErrorCode, platform_error_success}
use ether_recorder_suite.Command.Context.{
  CommandContext, Event, Answers, fail, wait_for_start, max_buffer_size, dispatch,
}

-- What one round of the loop meets: the flag for shutdown, the code and the bytes of the receive,
-- and the answers for the state machine. The socket gives no more bytes than there is room for.
pub record Round : Type 0 where
  pub shutdown : Bool
  pub receive_code : PlatformErrorCode
  pub bytes : List ℕ
  pub answers : Answers

abbrev pub fresh : CommandContext
fresh = record {
  buffer = [];
  message_length = 0;
  received_index = 0;
  ack_index = 0;
  current_state = wait_for_start;
}

abbrev pub received : CommandContext → Round → List ℕ
received c r = take (max_buffer_size - length c.buffer) r.bytes

-- The context after the receive, and whether the loop breaks there.
unfoldable pub receive : CommandContext → Round → Bool × CommandContext
receive c r =
    if ltb (length c.buffer) max_buffer_size
    then if not (r.receive_code == platform_error_success) || length (received c r) == 0
      then (true, c)
      else (false, record c { buffer = c.buffer ++ received c r })
    else (false, c)

-- One round: whether the loop goes on, the context and what is seen of it.
unfoldable pub round : CommandContext → Round → Bool × CommandContext × List Event
round c r =
    if r.shutdown
    then (false, c, [])
    else (let (broken, c') = receive c r in
        if broken
        then (false, c', [])
        else (let (result, c'', events) = dispatch c'.current_state r.answers c' in
            (elim result [ fail ↦ false | _ ↦ true ], c'', events)))

-- The loop over the rounds that the outside allows, with all that is seen of it.
unfoldable pub rounds : CommandContext → List Round → CommandContext × List Event
rounds c [] = (c, [])
rounds c (r ∷ rs) =
    let (goes_on, c', events) = round c r in
    let rest = rounds c' rs in if goes_on then (rest.0, events ++ rest.1) else (c', events)

-- A new connection.
unfoldable pub handle_client_connection : List Round → CommandContext × List Event
unfolding rounds
handle_client_connection rs = rounds fresh rs
