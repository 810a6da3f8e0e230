-- ===== src/Tests/Commands.antt =====
-- The command connection at small inputs.
use ether_recorder_suite.Prelude.{ℕ, ◌≡◌, refl, true, false, List, [], ◌∷◌, arith, codes}
use ether_recorder_suite.Command.Wire.{ack_packet, ack_body}
use ether_recorder_suite.Command.Context.{Answers, processed, sent, dispatch}
use ether_recorder_suite.Command.Connection.{
  Round, receive, round, rounds, handle_client_connection,
}
use ether_recorder_suite.Command.Frames.{frame}
use ether_recorder_suite.Command.Sessions.{single_piece_unanswered}

abbrev answers : Answers
answers = record { malloc_ok = true; send_code = 0; bytes_sent = 21 }

abbrev gives : List ℕ → Round
gives bytes = record { shutdown = false; receive_code = 0; bytes = bytes; answers = answers }

abbrev silent : Round
silent = record { shutdown = false; receive_code = 6; bytes = []; answers = answers }

abbrev hello : List ℕ
hello = codes "hello"

abbrev conversation : List Round
conversation = gives (frame hello) ∷ gives (1 ∷ []) ∷ gives (2 ∷ []) ∷ gives (3 ∷ []) ∷ []

conversation_seen :
    (handle_client_connection conversation).1 ≡ processed hello ∷ sent (ack_packet 0 0) ∷ []
unfolding handle_client_connection rounds round receive dispatch ack_packet ack_body
conversation_seen = refl

ack_packet_zero : ack_body 0 ≡ codes "ACK 0"
unfolding ack_body
ack_packet_zero = refl

single_piece_unanswered_example :
    (handle_client_connection (gives (frame hello) ∷ silent ∷ [])).1 ≡ []
single_piece_unanswered_example =
    single_piece_unanswered (gives (frame hello)) silent [] (omega arith) (omega arith)
