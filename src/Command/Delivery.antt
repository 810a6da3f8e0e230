-- ===== src/Command/Delivery.antt =====
-- A framed command reaches `process_command`.
use ether_recorder_suite.Prelude.{◌≡◌, ◌<◌, true, false, ◌++◌, length}
use ether_recorder_suite.Platform.Codes.{platform_error_success}
use ether_recorder_suite.Command.Context.{CommandContext}
use ether_recorder_suite.Command.Connection.{Round}

-- A round in which some bytes arrive and nothing fails.
pub record Arrives (r : Round) : Type 0 where
  pub on : r.shutdown ≡ false
  pub success : r.receive_code ≡ platform_error_success
  pub some_bytes : 0 < length r.bytes
  pub memory : r.answers.malloc_ok ≡ true

abbrev more : CommandContext → Round → CommandContext
more c r = record c { buffer = c.buffer ++ r.bytes }
