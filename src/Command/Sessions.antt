-- ===== src/Command/Sessions.antt =====
-- What holds of a whole connection.
use ether_recorder_suite.Prelude.{
  ℕ, suc, ◌+◌, ◌-◌, ◌*◌, ◌≡◌, ◌≢◌, ◌≤◌, ◌<◌, refl, ap, false, List, [], ◌∷◌, ◌++◌, arith, length,
  length-append,
}
use ether_recorder_suite.Platform.Codes.{platform_error_success}
use ether_recorder_suite.Command.Context.{
  CommandContext, CommandState, Event, processed, sent, Answers, wait_for_start, wait_for_length,
  wait_for_message, send_ack, dispatch, max_buffer_size,
}
use ether_recorder_suite.Command.Connection.{
  Round, fresh, received, receive, round, rounds, handle_client_connection,
}
use ether_recorder_suite.Command.Frames.{take-all}

-- The buffer holds no more than its size, and the length of a message that is awaited lies within
-- it, so that no access of the state machine is out of bounds.
pub record IsSane (c : CommandContext) : Type 0 where
  pub fits : length c.buffer ≤ max_buffer_size
  pub message_fits : c.current_state ≡ wait_for_message → c.message_length ≤ max_buffer_size
  pub message_long : c.current_state ≡ wait_for_message → 12 ≤ c.message_length

abbrev pub count_processed : List Event → ℕ
count_processed [] = 0
count_processed (processed m ∷ es) = suc (count_processed es)
count_processed (sent m ∷ es) = count_processed es

count-append :
    (xs ys : List Event) → count_processed (xs ++ ys) ≡ count_processed xs + count_processed ys
count-append [] ys = omega arith
count-append (processed m ∷ xs) ys = omega (arith, count-append xs ys)
count-append (sent m ∷ xs) ys = omega (arith, count-append xs ys)

-- How many rounds of its cycle the connection has behind it.
abbrev stage : CommandState → ℕ
stage send_ack = 0
stage wait_for_start = 1
stage wait_for_length = 2
stage wait_for_message = 3

dispatch-stage :
    (st : CommandState) (a : Answers) (c : CommandContext)
    → c.current_state ≡ st
    → let (result, c', events) = dispatch st a c in
      4 * count_processed events + stage c'.current_state ≤ stage st + 1
unfolding dispatch
dispatch-stage wait_for_start a c e = ground arith
dispatch-stage wait_for_length a c e = ground arith
dispatch-stage wait_for_message a c e = ground arith
dispatch-stage send_ack a c e = ground arith

receive_state : (c : CommandContext) (r : Round) → (receive c r).1.current_state ≡ c.current_state
unfolding receive
receive_state c r = ground arith

round-stage :
    (c : CommandContext) (r : Round)
    → let (goes_on, c', events) = round c r in
      4 * count_processed events + stage c'.current_state ≤ stage c.current_state + 1
unfolding round
round-stage c r =
    let c' = (receive c r).1 in
    let e = receive_state c r in
    let d = dispatch-stage c'.current_state r.answers c' refl in ground (arith, ap stage e, d)

rounds-stage :
    (c : CommandContext) (rs : List Round)
    → 4 * count_processed (rounds c rs).1 + stage (rounds c rs).0.current_state
      ≤ stage c.current_state + length rs
unfolding rounds
rounds-stage c [] = omega arith
rounds-stage c (r ∷ rs) =
    let d = round-stage c r in
    let rest = rounds-stage (round c r).1 rs in
    ground (arith, d, rest, count-append (round c r).2 (rounds (round c r).1 rs).1)

-- A connection processes at most one command for every four rounds of its loop, the first after
-- three.
pub commands_need_rounds :
    (rs : List Round) → 4 * count_processed (handle_client_connection rs).1 ≤ length rs + 1
unfolding handle_client_connection
commands_need_rounds rs = omega (arith, rounds-stage fresh rs)

receive-le :
    (c : CommandContext) (r : Round)
    → length r.bytes ≤ max_buffer_size - length c.buffer
    → length (receive c r).1.buffer ≤ length c.buffer + length r.bytes
unfolding receive
receive-le c r h =
    let e = take-all (max_buffer_size - length c.buffer) r.bytes h in
    ground (arith, length-append c.buffer (received c r), ap length e)

start_quiet :
    (st : CommandState) (a : Answers) (c : CommandContext)
    → st ≡ wait_for_start
    → let (result, c', events) = dispatch st a c in (c'.buffer ≡ c.buffer) × (events ≡ [])
unfolding dispatch
start_quiet wait_for_start a c e = ground arith
start_quiet wait_for_length a c e = cc
start_quiet wait_for_message a c e = cc
start_quiet send_ack a c e = cc

first_round :
    (r : Round)
    → length r.bytes < max_buffer_size
    → let (goes_on, c, events) = round fresh r in
      (length c.buffer < max_buffer_size) × (events ≡ [])
unfolding round
first_round r h =
    let c = (receive fresh r).1 in
    let small = receive-le fresh r (omega arith) in
    let (same, quiet) = start_quiet c.current_state r.answers c (receive_state fresh r) in
    ground (arith, small, quiet, ap length same)

round_receives_nothing :
    (c : CommandContext) (r : Round)
    → length c.buffer < max_buffer_size
    → r.receive_code ≢ platform_error_success
    → round c r ≡ (false, c, [])
unfolding round receive
round_receives_nothing c r h e = ground arith

-- A client that sends its bytes in one piece, a whole framed command among them, and then waits for
-- the answer gets none: if they do not fill the buffer and the next receive fails, as it does when
-- it times out, the connection ends with no command processed and no packet sent.
pub single_piece_unanswered :
    (first second : Round) (rs : List Round)
    → length first.bytes < max_buffer_size
    → second.receive_code ≢ platform_error_success
    → (handle_client_connection (first ∷ second ∷ rs)).1 ≡ []
unfolding handle_client_connection rounds
single_piece_unanswered first second rs h e =
    let (small, none_yet) = first_round first h in
    let stop = round_receives_nothing (round fresh first).1 second small e in
    ground (arith, none_yet, stop)
